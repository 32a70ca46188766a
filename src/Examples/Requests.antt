-- ===== src/Examples/Requests.antt =====
-- Requests of afmpkg/afmpkg-request.c and their reception, on small inputs.
use afb_app_manager.Base.{
  inl, inr, ◌-◌, true, some, List, [], ◌∷◌, ◌++◌, Bytes, codes, ◌≡◌, ◌≢◌, refl, arith, pos, neg,
  neg, ◌⊎◌, is_neg, length, take, ltb, if◌then◌else◌,
}
use afb_app_manager.Request.{
  Request, initial, status, afmpkg_request_add_line, ready, pending, failed, add_package,
  remove_package, get_status, fail_with,
}
use afb_app_manager.Request.Sound.{
  IsSound, add_lines, composed-IsSound, add_line_outcome, initial-IsSound,
}
use afb_app_manager.Request.Process.{find, afmpkg_request_process}
use afb_app_manager.Request.Process.Transactions.{
  Turn, serve_all, status_reply, successes, failures,
}
use afb_app_manager.Request.Reply.{reply, reply_lem, reply_text, reply_size}
use mathlib.Core.List.{map}
use afb_app_manager.Request.Receive.{got, receive}
use afb_app_manager.Request.Receive.Lines.{
  receive_first_piece, receive_split_line, unlines, obey_lines, has_newline,
}

abbrev hello : List Bytes
hello = codes "BEGIN ADD" ∷ codes "PACKAGE hello" ∷ codes "INDEX 1" ∷ codes "END ADD" ∷ []

composed-IsSound_example : IsSound (add_lines [] initial hello).0
composed-IsSound_example = composed-IsSound [] hello

add_line_outcome_example :
    ((afmpkg_request_add_line [] initial (codes "COUNT 2")).0 ≡ pos 0)
      × ((afmpkg_request_add_line [] initial (codes "COUNT 2")).1.state ≢ failed)
      × (initial.state ≡ pending)
    ⊎ (is_neg (afmpkg_request_add_line [] initial (codes "COUNT 2")).0 ≡ true)
      × ((afmpkg_request_add_line [] initial (codes "COUNT 2")).1.state ≡ failed)
add_line_outcome_example = add_line_outcome [] initial (codes "COUNT 2") initial-IsSound

abbrev refused : Request
refused = fail_with initial (neg 1003) "unexpected COUNT"

refused-IsSound : IsSound refused
refused-IsSound = ground arith

-- A package of the transaction "t", which has two of them.
abbrev package_of_t : Request
package_of_t = record initial {
  kind = add_package;
  state = ready;
  count = 2;
  transid = some (codes "t");
}

abbrev status_of_t : Request
status_of_t = record initial { kind = get_status; state = ready; transid = some (codes "t") }

abbrev removal_of_t : Request
removal_of_t = record package_of_t { kind = remove_package }

-- An installation that fails, and a removal that succeeds ten minutes later.
abbrev first_turn : Turn
first_turn = record { request = package_of_t; result = neg 5; now = 10; later = 11 }

abbrev second_turn : Turn
second_turn = record { request = removal_of_t; result = pos 0; now = 610; later = 610 }

-- One success and one failure: the number of failures is reported as 2 ^ 32 - 1.
status_reply_example :
    (afmpkg_request_process
      (λ _. neg 5)
      (λ _. neg 5)
      700
      700
      []
      (serve_all (first_turn ∷ second_turn ∷ []) [])
      status_of_t).request.msg
    ≡ some (status 2 1 4294967295)
unfolding find successes failures
status_reply_example =
    status_reply (codes "t") first_turn (second_turn ∷ []) [] status_of_t 700 700 (λ _. neg 5)
      (λ _. neg 5) ((inl refl, refl), ((inr refl, refl), tt)) (λ e. cc) (omega arith, tt)
      (omega arith) refl refl refl

abbrev replied : Request
replied = refused

reply_lem_example : reply replied ≡ (
    if ltb (length (reply_text replied)) reply_size
    then reply_text replied
    else take (reply_size - 1) (reply_text replied) ++ b'\n' ∷ [])
reply_lem_example = reply_lem replied

-- Three pieces: the lines of the second and of the third are lost.
abbrev first_lines : List Bytes
first_lines = codes "BEGIN ADD" ∷ codes "PACKAGE hello" ∷ []

abbrev later_pieces : List Bytes
later_pieces = codes "INDEX 1\nCOUNT 1\n" ∷ codes "END ADD\n" ∷ []

receive_first_piece_example :
    receive [] initial [] (got (unlines first_lines) ∷ map got later_pieces)
    ≡ obey_lines [] initial first_lines
receive_first_piece_example =
    receive_first_piece first_lines later_pieces [] initial
      (unfold has_newline in (refl, (refl, tt))) (λ e. cc) ((λ e. cc), ((λ e. cc), tt))
      (omega arith, (omega arith, tt))

-- "END" and " ADD", a newline: the line gets lost.
receive_split_line_example :
    ((receive [] initial [] (got (codes "END") ∷ got (codes " ADD\n") ∷ [])).rc ≡ pos 0)
    × ((receive [] initial [] (got (codes "END") ∷ got (codes " ADD\n") ∷ [])).request ≡ initial)
    × ((receive [] initial [] (got (codes "END") ∷ got (codes " ADD\n") ∷ [])).memory ≡ [])
unfolding has_newline
receive_split_line_example =
    receive_split_line [] initial (codes "END") (codes " ADD") (λ e. cc) refl refl
