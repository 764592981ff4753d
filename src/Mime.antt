-- ===== src/Mime.antt =====
-- src/mime.rs: sniffing, what is shown inline, what is refused, and the names of downloads. The
-- `infer` crate and UTF-8 decoding are parameters.
pub mod Filenames
pub mod Truncation
mod Examples
use uwuubox.Ids.{base_name}
use uwuubox.Prelude.{
  ℕ, Bytes, Bool, List, codes, Option, if◌then◌else◌, ◌∷◌, [], ◌==◌, any, ◌||◌, some, ltb, false,
  leb, ◌-◌, true, bytes_eq, none, ◌&&◌,
}
use uwuubox.Text.{Text, len, len_utf8, starts_with, contains_char}

abbrev pub octet_stream : Text
octet_stream = codes "application/octet-stream"

abbrev plain_or_octets : Option Text → Text
plain_or_octets none = octet_stream
plain_or_octets (some s) = if contains_char 0 s then octet_stream else codes "text/plain"

abbrev sniffed_or : Option Text → Text → Text
sniffed_or none other = other
sniffed_or (some mime) other = mime

unfoldable pub sniff_mime : (Bytes → Option Text) → (Bytes → Option Text) → Bytes → Text
sniff_mime infer from_utf8 [] = octet_stream
sniff_mime infer from_utf8 (b ∷ bytes) =
    sniffed_or (infer (b ∷ bytes)) (plain_or_octets (from_utf8 (b ∷ bytes)))

abbrev pub one_of : Text → List Text → Bool
one_of s words = any (bytes_eq s) words

abbrev pub video_mimes : List Text
video_mimes = codes "video/mp4" ∷ codes "video/webm" ∷ codes "video/quicktime" ∷ []

abbrev pub image_mimes : List Text
image_mimes =
    codes "image/png"
    ∷ codes "image/jpeg"
    ∷ codes "image/gif"
    ∷ codes "image/webp"
    ∷ codes "image/avif"
    ∷ []

abbrev pub blocked_mimes : List Text
blocked_mimes =
    codes "text/html"
    ∷ codes "application/xhtml+xml"
    ∷ codes "application/x-sh"
    ∷ codes "application/x-msdownload"
    ∷ codes "application/x-executable"
    ∷ codes "application/x-mach-binary"
    ∷ codes "application/x-elf"
    ∷ []

unfoldable pub is_embeddable_video : Text → Bool
is_embeddable_video mime = one_of mime video_mimes

abbrev is_some_text : Option Text → Bool
is_some_text none = false
is_some_text (some s) = true

unfoldable pub should_inline : (Bytes → Option Text) → Text → Bytes → Bool
unfolding is_embeddable_video starts_with
should_inline from_utf8 mime bytes =
    one_of mime image_mimes
    || is_embeddable_video mime
    || starts_with (codes "audio/") mime
    || (bytes_eq mime (codes "text/plain") && is_some_text (from_utf8 bytes))

unfoldable pub is_upload_blocked : Text → Bool
is_upload_blocked mime = one_of mime blocked_mimes

unfoldable pub is_avatar_mime : Text → Bool
is_avatar_mime mime = one_of mime image_mimes

-- `char::is_control`
abbrev pub is_control : ℕ → Bool
is_control c = ltb c 0x20 || (leb 0x7f c && leb c 0x9f)

abbrev pub is_quoting : ℕ → Bool
is_quoting c = (c == b'"') || (c == b'\'') || (c == b'\\') || (c == b';')

abbrev pub unquoted : ℕ → ℕ
unquoted c = if is_quoting c then b'_' else c

unfoldable pub clean : Text → Text
clean [] = []
clean (c ∷ s) = let rest = clean s in if is_control c then rest else unquoted c ∷ rest

unfoldable pub drop_dots : Text → Text
drop_dots [] = []
drop_dots (c ∷ s) = elim (c == b'.') [ true ↦ drop_dots s | false ↦ c ∷ s ]

abbrev pub or_download : Text → Text
or_download [] = codes "download"
or_download (c ∷ s) = c ∷ s

abbrev pub push : ℕ → Option Text → Option Text
push c none = none
push c (some s) = some (c ∷ s)

-- `String::truncate`: a panic, here `none`, if the length is not on the boundary of a character.
unfoldable pub truncate : ℕ → Text → Option Text
unfolding len_utf8
truncate n [] = some []
truncate n (c ∷ s) =
    let rest = truncate (n - len_utf8 c) s in
    if n == 0 then some [] else if ltb n (len_utf8 c) then none else push c rest

abbrev pub capped : Text → Option Text
capped s = if ltb 128 (len s) then truncate 128 s else some s

-- `none` is a panic.
unfoldable pub sanitize_filename : Text → Option Text
unfolding base_name clean drop_dots truncate len
sanitize_filename name = capped (or_download (drop_dots (clean (base_name name))))
