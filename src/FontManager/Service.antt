-- ===== src/FontManager/Service.antt =====
-- The loop of the service in font-manager/src/main.cpp.
use i_user_apps.Common.{
  ℕ, Bool, true, false, not, ◌||◌, Option, none, some, List, [], ◌∷◌, ltb, ◌==◌, if◌then◌else◌,
  length,
}
use i_user_apps.FontManager.Protocol.{Request, Protocol, Shapes}
use i_user_apps.FontManager.Replies.{
  Reply, reply_to_request, hello_reply, font_info, glyph_metrics, glyph_row, no_body,
}

unfoldable pub map_request : Option Request → (Request → Reply) → Option Reply
map_request none build = none
map_request (some request) build = some (build request)

unfoldable pub bad_opcode_reply : Protocol → Reply
bad_opcode_reply protocol = record {
  opcode = protocol.hello;
  status = protocol.status_bad_opcode;
  codepoint = 0;
  row = 0;
  body = no_body;
}

-- The reply to a message with this opcode; none when it could not be built.
unfoldable pub build_reply : Protocol → Option Shapes → ℕ → List ℕ → Option Reply
build_reply protocol font opcode data_bytes =
    if opcode == protocol.hello
    then map_request (protocol.decode_hello data_bytes) (hello_reply protocol)
    else if opcode == protocol.get_font_info
    then map_request (protocol.decode_font_info data_bytes)
        (λ r. reply_to_request protocol font protocol.get_font_info r 0 0 (font_info protocol r))
    else if opcode == protocol.get_glyph_metrics
    then map_request (protocol.decode_glyph_metrics data_bytes) (λ r.
      reply_to_request protocol font protocol.get_glyph_metrics r r.codepoint 0
        (glyph_metrics protocol r))
    else if opcode == protocol.get_glyph_row
    then map_request (protocol.decode_glyph_row data_bytes) (λ r.
      reply_to_request protocol font protocol.get_glyph_row r r.codepoint r.row
        (glyph_row protocol r))
    else some (bad_opcode_reply protocol)

-- A message of the queue; `sent` says whether the kernel takes the reply to it.
pub record Message : Type 0 where
  pub id : ℕ
  pub is_request : Bool
  pub bytes : List ℕ
  pub sent : Bool

unfoldable pub is_ignored : Protocol → Message → Bool
is_ignored protocol m = not m.is_request || ltb (length m.bytes) protocol.header_size

-- The reply that was made goes to the kernel; the service ends if there is none or it is not taken.
unfoldable pub send_reply :
    Message → Option Reply → List (ℕ × Reply) × Bool → List (ℕ × Reply) × Bool
send_reply m none rest = ([], true)
send_reply m (some reply) (replies, ended) =
    if m.sent then ((m.id, reply) ∷ replies, ended) else ([], true)

-- The loop of the service over the messages that it receives: the replies, and whether it ended.
unfoldable pub serve : Protocol → Option Shapes → List Message → List (ℕ × Reply) × Bool
serve protocol font [] = ([], false)
serve protocol font (m ∷ messages) =
    let rest = serve protocol font messages in
    if is_ignored protocol m
    then rest
    else send_reply m (build_reply protocol font (protocol.read_header m.bytes).opcode m.bytes) rest
