-- ===== src/Processor/Video.antt =====
-- The content types of videos, of internal/processor/video/processor.go.
use file_cheap.Prelude.{Bool, false, ◌||◌, List, [], ◌∷◌}
use file_cheap.Prelude.Key.{◌==◌, nat_key}
use file_cheap.Prelude.Bytes.{Bytes, bytes, bytes_key}

-- `SupportedVideoTypes`.
abbrev pub video_types : List Bytes
video_types =
    bytes "video/mp4"
    ∷ bytes "video/webm"
    ∷ bytes "video/quicktime"
    ∷ bytes "video/x-msvideo"
    ∷ bytes "video/x-matroska"
    ∷ bytes "video/mpeg"
    ∷ bytes "video/ogg"
    ∷ bytes "video/3gpp"
    ∷ bytes "video/3gpp2"
    ∷ []

unfoldable pub is_one_of : Bytes → List Bytes → Bool
is_one_of s [] = false
is_one_of s (t ∷ ts) = t == s || is_one_of s ts

-- `IsVideoType`.
unfoldable pub is_video_type : Bytes → Bool
unfolding is_one_of
is_video_type content_type = is_one_of content_type video_types
