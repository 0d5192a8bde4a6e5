-- ===== src/Examples/Tests.antt =====
-- Operations run at concrete inputs.
use qslary.Base.{◌≡◌, refl, true, false, none, some, [], ◌∷◌}
use qslary.Base.Int.{pos, negsuc, of_pattern}
use qslary.Base.Text.{codes, is_empty, bytes_eq, c_str}
use qslary.Base.OrdMap
use qslary.ByteArray.{clear}
use qslary.ByteArray.Zigzag.{
  encode_zigzag, encode_zigzag32, encode_zigzag64, decode_zigzag, decode_zigzag32, decode_zigzag64,
}
use qslary.Socket.{create_tcp_socket, listen, is_valid}
use qslary.Http.Method
use qslary.Http.Method.{chars_to_http_method, is_unknow}
use qslary.Http.Status.{chars_to_http_status}
use qslary.Http.Servlet.{
  Servlet, create, set_default_servlet, add_servlet, add_global_servlet, del_servlet,
  del_global_servlet, get_servlet, get_global_servlet, function_servlet,
}
use qslary.Http.Client.{target}
use qslary.Http.Parser.{create_request_parser, request_is_finished, request_has_error}
use qslary.Channel.{Channel, read_callback, write_callback, handle_event, tie}
use qslary.Channel
use qslary.Poller.{has_channel, is_at, poll}
use qslary.Examples.Wire.{some_address, connected_socket, wire, line, Line}
use qslary.Examples.Arrays.{three}
use qslary.Examples.Sessions.{machine}
use qslary.Examples.Pollers.{epoll, idle}

abbrev echo : Servlet Line
echo request response session = (0, record response { body = request.body }, session)

clear_empty : (clear three).buffer ≡ []
unfolding clear
clear_empty = refl

codes_32 : (encode_zigzag32 (negsuc 0) ≡ some 1) × (decode_zigzag32 1 ≡ negsuc 0)
unfolding encode_zigzag32 encode_zigzag decode_zigzag32 decode_zigzag of_pattern
codes_32 = (refl, refl)

codes_64 : (encode_zigzag64 (pos 3) ≡ some 6) × (decode_zigzag64 6 ≡ pos 3)
unfolding encode_zigzag64 encode_zigzag decode_zigzag64 decode_zigzag of_pattern
codes_64 = (refl, refl)

listens :
    ((create_tcp_socket some_address).family ≡ 2)
    × (listen wire 5 connected_socket line ≡ (true, line))
unfolding create_tcp_socket listen is_valid
listens = (refl, refl)

names :
    (chars_to_http_method (codes "POST /") ≡ Method.post)
    × (is_unknow Method.post ≡ false)
    × (chars_to_http_status (codes "OK") ≡ 200)
unfolding chars_to_http_method is_unknow chars_to_http_status bytes_eq c_str
names = (refl, refl, refl)

globals :
    (get_global_servlet
        (codes "/*")
        (add_global_servlet (codes "/*") (function_servlet echo) (set_default_servlet echo create))
      ≡ some echo)
    × (get_global_servlet
          (codes "/*")
          (del_global_servlet (codes "/*") (add_global_servlet (codes "/*") echo create))
        ≡ none)
    × (get_servlet (codes "/a") (del_servlet (codes "/a") (add_servlet (codes "/a") echo create))
        ≡ none)
unfolding get_global_servlet add_global_servlet set_default_servlet create function_servlet
    del_global_servlet get_servlet del_servlet add_servlet bytes_eq
globals = (refl, refl, refl)

targets : target (codes "/a") (codes "x=1") [] ≡ codes "/a?x=1"
unfolding target is_empty
targets = refl

starts :
    (request_is_finished machine (create_request_parser machine) ≡ false)
    × (request_has_error machine (create_request_parser machine) ≡ false)
unfolding request_is_finished request_has_error create_request_parser
starts = (refl, refl)

abbrev readable : Channel
readable = record (Channel.create 5) { revents = 5; has_read = true; has_write = true }

handles :
    ((handle_event false readable).0 ≡ read_callback ∷ write_callback ∷ [])
    × ((handle_event false (tie readable)).0 ≡ [])
unfolding handle_event tie Channel.create
handles = (refl, refl)

polls : (has_channel 5 idle ≡ true) × (poll epoll [] idle ≡ some ([], idle))
unfolding has_channel is_at OrdMap.find poll Channel.create
polls = (refl, refl)
