-- ===== src/Api/Folders/Steps.antt =====
-- When a step on folders keeps to the rows of a user (internal/api/folders.go).
use file_cheap.Prelude.{◌≡◌, ◌≢◌, sym, subst, ℕ, Bool, Option, some}
use file_cheap.Prelude.Key.{nat_key}
use file_cheap.Prelude.Bytes.{bytes_key}
use file_cheap.Prelude.Action.{ok, ◌>>=◌, ◌>>◌, answer, or_refuse, require, modify, look}
use file_cheap.Prelude.Action.Leads.{Leads, Leads-or_refuse, Leads-require, Leads-look, Leads-reads}
use file_cheap.Api.Folders.{Tree}
use file_cheap.Api.Folders.Owned.{IsOwned, Leaves}
use file_cheap.Api.Folders.Handlers.{FolderError, FolderStep}

-- Each folder and file is in a folder of its user after a change, which leaves the rows of all
-- other users.
pub record Isolated (u : ℕ) (tree tree' : Tree) : Type 0 where
  pub owned : IsOwned tree'
  pub others : (v : ℕ) → v ≢ u → Leaves v tree tree'

abbrev pub Isolates : {A : Type 0} → ℕ → Tree → FolderStep A → Type 0
Isolates u tree m = Leads (Isolated u tree) tree m

Leaves-self : (v : ℕ) (tree : Tree) → Leaves v tree tree
Leaves-self v tree = record {
  folders = λ j f m. (λ h. h, λ h. h);
  files = λ i x m. (λ h. h, λ h. h);
}

module _ {u : ℕ} {tree : Tree} (start : IsOwned tree) where
  same-Isolated : Isolated u tree tree
  same-Isolated = record { owned = start; others = λ v other. Leaves-self v tree }

  pub Isolates-none : {A : Type 0} (m : FolderStep A) → (m tree).1 ≡ tree → Isolates u tree m
  Isolates-none m h = subst (Isolated u tree) (sym h) same-Isolated

  pub Isolates-or_refuse :
      {A B : Type 0} (o : Option A) (e : FolderError) (f : A → FolderStep B)
      → ((a : A) → o ≡ some a → Isolates u tree (f a))
      → Isolates u tree (or_refuse o e >>= f)
  Isolates-or_refuse o e f k = Leads-or_refuse (Isolated u tree) o e f same-Isolated k

  pub Isolates-require :
      {B : Type 0} (b : Bool) (e : FolderError) (m : FolderStep B)
      → Isolates u tree m
      → Isolates u tree (require b e >> m)
  Isolates-require b e m i = Leads-require (Isolated u tree) b e m same-Isolated (λ h. i)

  pub Isolates-look :
      {A B : Type 0} (f : Tree → A) (g : A → FolderStep B)
      → Isolates u tree (g (f tree))
      → Isolates u tree (look f >>= g)
  Isolates-look f g i = Leads-look (Isolated u tree) f g i

  pub Isolates-modify :
      (f : Tree → Tree)
      → IsOwned (f tree)
      → ((v : ℕ) → v ≢ u → Leaves v tree (f tree))
      → Isolates u tree (modify f)
  unfolding modify
  Isolates-modify f owned others = record { owned = owned; others = others }

  pub Isolates-modify_then :
      {B : Type 0} (f : Tree → Tree) (b : B)
      → IsOwned (f tree)
      → ((v : ℕ) → v ≢ u → Leaves v tree (f tree))
      → Isolates u tree (modify f >> answer b)
  unfolding modify ◌>>=◌ answer
  Isolates-modify_then f b owned others = record { owned = owned; others = others }

  -- A first step that only reads.
  pub Isolates-reads :
      {A B : Type 0} (m : FolderStep A) (f : A → FolderStep B)
      → (m tree).1 ≡ tree
      → ((a : A) → (m tree).0 ≡ ok a → Isolates u tree (f a))
      → Isolates u tree (m >>= f)
  Isolates-reads m f same k = Leads-reads (Isolated u tree) m f same-Isolated same k
