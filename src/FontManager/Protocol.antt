-- ===== src/FontManager/Protocol.antt =====
-- Requests, the font and its loading in font-manager/src/main.cpp.
-- The start of each message.
use i_user_apps.Common.{
  ℕ, zero, suc, ◌+◌, ◌-◌, Bool, true, false, not, ◌&&◌, Option, none, some, List, ltb, ◌==◌,
  if◌then◌else◌,
}

pub record Header : Type 0 where
  pub version : ℕ
  pub opcode : ℕ

pub record Request : Type 0 where
  pub header : Header
  pub codepoint : ℕ
  pub pixel_height : ℕ
  pub row : ℕ

-- A decoder returns none for a message that holds no such request.
pub record Protocol : Type 0 where
  pub version : ℕ
  pub hello : ℕ
  pub get_font_info : ℕ
  pub get_glyph_metrics : ℕ
  pub get_glyph_row : ℕ
  pub status_ok : ℕ
  pub status_bad_version : ℕ
  pub status_bad_opcode : ℕ
  pub status_bad_payload : ℕ
  pub default_pixel_height : ℕ
  pub max_glyph_row_pixels : ℕ
  pub header_size : ℕ
  pub read_header : List ℕ → Header
  pub decode_hello : List ℕ → Option Request
  pub decode_font_info : List ℕ → Option Request
  pub decode_glyph_metrics : List ℕ → Option Request
  pub decode_glyph_row : List ℕ → Option Request

pub record Box : Type 0 where
  pub x0 : ℕ
  pub y0 : ℕ
  pub x1 : ℕ
  pub y1 : ℕ

pub record Bitmap : Type 0 where
  pub width : ℕ
  pub height : ℕ
  pub pixels : List ℕ

-- A loaded font: `scaled_ceil value pixel_height` is `scaled_ceil` of the source with the scale of
-- that height, and the boxes and bitmaps are those at a height.
pub record Shapes : Type 0 where
  pub ascent : ℕ
  pub descent : ℕ
  pub line_gap : ℕ
  pub scaled_ceil : ℕ → ℕ → ℕ
  pub advance : ℕ → ℕ
  pub box : ℕ → ℕ → Box
  pub bitmap : ℕ → ℕ → Option Bitmap

-- The sizes that are served.
unfoldable pub normalize_pixel_height : Protocol → ℕ → ℕ
normalize_pixel_height protocol height =
    if height == 0
    then protocol.default_pixel_height
    else if ltb height 6
    then 6
    else if ltb 72 height
    then 72
    else height

-- What `read` returns after `total` bytes of the file, of which it may read the rest: the number of
-- bytes, or none for an error.
abbrev pub Reads : Type 0
Reads = ℕ → ℕ → Option ℕ

unfoldable pub after_read : Option ℕ → (ℕ → Bool) → Bool
after_read none next = false
after_read (some zero) next = false
after_read (some (suc n)) next = next (suc n)

-- Whether the whole file is read; each read has at least a byte, so there are no more than bytes.
unfoldable pub read_whole : Reads → ℕ → ℕ → ℕ → Bool
read_whole reads zero total size = not (ltb total size)
read_whole reads (suc fuel) total size =
    if ltb total size
    then after_read (reads total (size - total)) (λ n. read_whole reads fuel (total + n) size)
    else true

-- What the system does when the font is loaded: the size of the file, whether it is opened and there is
-- memory for it, the reads, and whether its bytes are a font.
pub record FontFile : Type 0 where
  pub size : Option ℕ
  pub opened : Bool
  pub has_memory : Bool
  pub reads : Reads
  pub is_font : Bool

unfoldable pub load_sized : FontFile → ℕ → Bool
load_sized file zero = false
load_sized file (suc size) =
    file.opened && file.has_memory && read_whole file.reads (suc size) 0 (suc size) && file.is_font

unfoldable pub load_font : FontFile → Bool
load_font file = elim file.size [ none ↦ false | some size ↦ load_sized file size ]

-- The status, and whether the request is of this kind and version.
unfoldable pub validate_header : Protocol → Header → ℕ → ℕ × Bool
validate_header protocol header opcode =
    if not (header.version == protocol.version)
    then (protocol.status_bad_version, false)
    else if not (header.opcode == opcode)
    then (protocol.status_bad_opcode, false)
    else (protocol.status_ok, true)
