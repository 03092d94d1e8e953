-- ===== src/FontManager/Replies.antt =====
-- The replies of font-manager/src/main.cpp.
use i_user_apps.Common.{
  drop, ℕ, ◌*◌, ◌%◌, ◌^◌, Bool, ◌&&◌, ◌||◌, Option, none, some, List, [], ltb, leb, if◌then◌else◌,
  take, u32_mod, add32, sub32,
}
use i_user_apps.FontManager.Protocol.{
  Request, Protocol, Bitmap, Shapes, normalize_pixel_height, validate_header,
}

pub record Info : Type 0 where
  pub info_pixel_height : ℕ
  pub ascent : ℕ
  pub descent : ℕ
  pub line_gap : ℕ
  pub baseline : ℕ
  pub line_height : ℕ
  pub cell_width : ℕ

pub record Metrics : Type 0 where
  pub metrics_pixel_height : ℕ
  pub width : ℕ
  pub height : ℕ
  pub x_offset : ℕ
  pub y_offset : ℕ
  pub advance : ℕ

pub record Row : Type 0 where
  pub row_pixel_height : ℕ
  pub width : ℕ
  pub pixels : List ℕ

-- A reply: its opcode and status, the codepoint and the row of the request, and what was asked for.
pub data Body : Type 0 where
  no_body : Body
  info_body : Info → Body
  metrics_body : Metrics → Body
  row_body : Row → Body

pub record Reply : Type 0 where
  pub opcode : ℕ
  pub status : ℕ
  pub codepoint : ℕ
  pub row : ℕ
  pub body : Body

-- A reply to a request whose header is wrong, or when there is no font, has no body.
unfoldable pub reply_to_request :
    Protocol → Option Shapes → ℕ → Request → ℕ → ℕ → (Shapes → ℕ × Body) → Reply
reply_to_request protocol none opcode request codepoint row answer =
    let (status, valid) = validate_header protocol request.header opcode in
    record {
      opcode = opcode;
      status = if valid then protocol.status_bad_payload else status;
      codepoint = codepoint;
      row = row;
      body = no_body;
    }
reply_to_request protocol (some font) opcode request codepoint row answer =
    let (status, valid) = validate_header protocol request.header opcode in
    let (answer_status, body) = answer font in
    record {
      opcode = opcode;
      status = if valid then answer_status else status;
      codepoint = codepoint;
      row = row;
      body = if valid then body else no_body;
    }

unfoldable pub hello_reply : Protocol → Request → Reply
hello_reply protocol request =
    let (status, valid) = validate_header protocol request.header protocol.hello in
    record { opcode = protocol.hello; status = status; codepoint = 0; row = 0; body = no_body }

-- `n <= 0` on the pattern of an `int`.
abbrev pub is_positive : ℕ → Bool
is_positive n = ltb 0 n && ltb n (2 ^ 31)

unfoldable pub font_info : Protocol → Request → Shapes → ℕ × Body
font_info protocol request font =
    let height = normalize_pixel_height protocol request.pixel_height in
    let line = font.scaled_ceil (add32 (sub32 font.ascent font.descent) font.line_gap) height in
    let cell = font.scaled_ceil (font.advance 77) height in
    (
      protocol.status_ok,
      info_body (record {
        info_pixel_height = height;
        ascent = font.ascent;
        descent = font.descent;
        line_gap = font.line_gap;
        baseline = font.scaled_ceil font.ascent height;
        line_height = if is_positive line then line else add32 height 4;
        cell_width = if is_positive cell then cell else 8;
      }),
    )

unfoldable pub glyph_metrics : Protocol → Request → Shapes → ℕ × Body
glyph_metrics protocol request font =
    let height = normalize_pixel_height protocol request.pixel_height in
    let box = font.box request.codepoint height in
    (
      protocol.status_ok,
      metrics_body (record {
        metrics_pixel_height = height;
        width = sub32 box.x1 box.x0;
        height = sub32 box.y1 box.y0;
        x_offset = box.x0;
        y_offset = box.y0;
        advance = font.scaled_ceil (font.advance request.codepoint) height;
      }),
    )

-- A row that is not in the bitmap, or does not fit in a reply, is refused.
unfoldable pub row_of_bitmap : Protocol → Request → ℕ → Bitmap → ℕ × Body
row_of_bitmap protocol request pixel_height bitmap =
    if leb (2 ^ 31) bitmap.width
      || leb (2 ^ 31) bitmap.height
      || ltb protocol.max_glyph_row_pixels bitmap.width
      || leb bitmap.height request.row
    then (
      protocol.status_bad_payload,
      row_body (record { row_pixel_height = pixel_height; width = 0; pixels = [] }),
    )
    else (
      protocol.status_ok,
      row_body (record {
        row_pixel_height = pixel_height;
        width = bitmap.width;
        pixels = take bitmap.width (drop (request.row * bitmap.width % u32_mod) bitmap.pixels);
      }),
    )

unfoldable pub row_of_glyph : Protocol → Request → ℕ → Option Bitmap → ℕ × Body
row_of_glyph protocol request height none = (
  protocol.status_bad_payload,
  row_body (record { row_pixel_height = height; width = 0; pixels = [] }),
)
row_of_glyph protocol request height (some bitmap) = row_of_bitmap protocol request height bitmap

unfoldable pub glyph_row : Protocol → Request → Shapes → ℕ × Body
glyph_row protocol request font =
    let height = normalize_pixel_height protocol request.pixel_height in
    row_of_glyph protocol request height (font.bitmap request.codepoint height)
