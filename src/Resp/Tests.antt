-- ===== src/Resp/Tests.antt =====
-- Runs of the RESP client, and its theorems at them.
use supply_chain_mangement_s.Common.{
  pos, negsuc, ◌≡◌, refl, some, Bool, false, List, [], ◌∷◌, ◌++◌, length, arith,
}
use supply_chain_mangement_s.Bytes.{codes, crlf}
use supply_chain_mangement_s.Resp.{
  numeric, null, array, nil, cons, parsed, halted, needs_more, try_parse_reply, encode_command,
}
use supply_chain_mangement_s.Resp.Wire.{
  Reply, error, integer, bulk, many, end, item, print, IsReply,
}
use supply_chain_mangement_s.Resp.RoundTrip.{texts, parse-encode_command}
use supply_chain_mangement_s.Resp.Loop.{AtRest, on_data-AtRest}
use supply_chain_mangement_s.Resp.Chunks.{receive}
use supply_chain_mangement_s.Resp.Delivery.{
  answers, print_all, receive-print_all, on_data-unsupported,
}
use supply_chain_mangement_s.Resp.Client.{
  Client, rejected, unsupported_byte, socket_failure, fail_all_pending, on_data, eval, get, set,
  del, quit, end_socket, string, numeral,
}

abbrev connected : Client
connected = record { buffer = []; pending = []; settled = []; written = []; ended = false }

abbrev asked : Client
asked = record { buffer = []; pending = 1 ∷ 2 ∷ 3 ∷ []; settled = []; written = []; ended = false }

get_written :
    (get 1 (codes "stock:A:x") connected).written ≡ codes "*2\r\n$3\r\nGET\r\n$9\r\nstock:A:x\r\n"
unfolding get
get_written = refl

eval_written :
    (eval 1 (codes "S") (pos 2) (string (codes "k") ∷ numeral (negsuc 4) ∷ []) connected).written
    ≡ codes "*5\r\n$4\r\nEVAL\r\n$1\r\nS\r\n$1\r\n2\r\n$1\r\nk\r\n$2\r\n-5\r\n"
unfolding eval
eval_written = refl

three_asked :
    (quit 3 (del 2 (codes "a" ∷ codes "b" ∷ []) (set 1 (codes "k") (codes "v") connected))).pending
    ≡ 1 ∷ 2 ∷ 3 ∷ []
unfolding set del quit
three_asked = refl

half_a_reply : try_parse_reply (codes "$5\r\nhel") ≡ halted needs_more
unfolding try_parse_reply
half_a_reply = refl

-- An array in an array, and a null.
nested :
    try_parse_reply (codes "*2\r\n*1\r\n:7\r\n$-1\r\n+OK\r\n")
    ≡ parsed (array (cons (array (cons (numeric (some (pos 7))) nil)) (cons null nil))) 17
unfolding try_parse_reply
nested = refl

closed_by_server :
    (fail_all_pending (socket_failure "Redis connection closed") asked).settled
    ≡ rejected 1 (socket_failure "Redis connection closed")
      ∷ rejected 2 (socket_failure "Redis connection closed")
      ∷ rejected 3 (socket_failure "Redis connection closed")
      ∷ []
unfolding fail_all_pending
closed_by_server = refl

ended : (end_socket asked).ended ≡ Bool.true
unfolding end_socket
ended = refl

abbrev replies : List Reply
replies =
    many (item (bulk (codes "OK")) (item (integer (negsuc 0)) end)) ∷ error (codes "ERR x") ∷ []

-- An array and an error reply, cut inside a line and inside a text.
receive-print_all_example :
    receive
      (codes "*2\r\n$2\r" ∷ codes "\nO" ∷ codes "K\r\n:-1\r\n-ERR x\r" ∷ codes "\n" ∷ [])
      asked
    ≡ record {
      buffer = [];
      pending = 3 ∷ [];
      settled = [] ++ answers (1 ∷ 2 ∷ []) replies;
      written = [];
      ended = false;
    }
unfolding print IsReply
receive-print_all_example =
    receive-print_all (1 ∷ 2 ∷ []) (3 ∷ []) replies
      (codes "*2\r\n$2\r" ∷ codes "\nO" ∷ codes "K\r\n:-1\r\n-ERR x\r" ∷ codes "\n" ∷ []) asked
      (omega arith) refl refl refl refl

parse-encode_command_example :
    try_parse_reply (encode_command (codes "DEL" ∷ codes "a" ∷ []) ++ codes "+")
    ≡ parsed
        (array (texts (codes "DEL" ∷ codes "a" ∷ [])))
        (length (encode_command (codes "DEL" ∷ codes "a" ∷ [])))
parse-encode_command_example = parse-encode_command (codes "DEL" ∷ codes "a" ∷ []) (codes "+")

on_data-AtRest_example : AtRest (try_parse_reply (on_data (codes "$3\r\nab") asked).buffer)
on_data-AtRest_example = on_data-AtRest (codes "$3\r\nab") asked

on_data-unsupported_example :
    on_data
      (print_all (integer (pos 5) ∷ []) ++ (b'!' ∷ (codes "what" ++ crlf (codes "+OK"))))
      asked
    ≡ record {
      buffer = [];
      pending = 3 ∷ [];
      settled =
          []
          ++ (answers (1 ∷ []) (integer (pos 5) ∷ []) ++ rejected 2 (unsupported_byte b'!') ∷ []);
      written = [];
      ended = false;
    }
unfolding IsReply
on_data-unsupported_example =
    on_data-unsupported (1 ∷ []) 2 (3 ∷ []) (integer (pos 5) ∷ []) b'!' (codes "what") (codes "+OK")
      asked (omega arith) refl refl (omega arith) refl refl
