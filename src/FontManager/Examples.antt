-- ===== src/FontManager/Examples.antt =====
-- A row of a small glyph of font-manager/src/main.cpp.
use i_user_apps.Common.{refl, none, [], ◌∷◌, arith}
use i_user_apps.FontManager.Protocol.{Protocol, Request, Bitmap}
use i_user_apps.FontManager.Replies.{row_of_bitmap}
use i_user_apps.FontManager.Rows.{Answers, row_of_bitmap-Answers}

abbrev protocol : Protocol
protocol = record {
  version = 1;
  hello = 1;
  get_font_info = 2;
  get_glyph_metrics = 3;
  get_glyph_row = 4;
  status_ok = 0;
  status_bad_version = 1;
  status_bad_opcode = 2;
  status_bad_payload = 3;
  default_pixel_height = 16;
  max_glyph_row_pixels = 128;
  header_size = 8;
  read_header = λ bytes. record { version = 1; opcode = 4 };
  decode_hello = λ bytes. none;
  decode_font_info = λ bytes. none;
  decode_glyph_metrics = λ bytes. none;
  decode_glyph_row = λ bytes. none;
}

abbrev second_row : Request
second_row = record {
  header = record { version = 1; opcode = 4 };
  codepoint = 77;
  pixel_height = 16;
  row = 1;
}

abbrev small_bitmap : Bitmap
small_bitmap = record { width = 2; height = 2; pixels = 10 ∷ 20 ∷ 30 ∷ 40 ∷ [] }

row_of_bitmap-Answers_example :
    Answers protocol second_row 16 small_bitmap (row_of_bitmap protocol second_row 16 small_bitmap)
row_of_bitmap-Answers_example =
    row_of_bitmap-Answers protocol second_row 16 small_bitmap refl (omega arith)
