-- ===== src/Pipe/Tests.antt =====
-- A pipe with one message in it.
use algo_guard.Prelude.{take, arith, ℕ, ◌≡◌, refl, some, List, [], ◌∷◌, ◌++◌}
use algo_guard.Pipe.{Pickle, received, closed, send, receive, pack}
use algo_guard.Pipe.Framing.{send-receive, receive-take}

-- Lists of bytes, written as they are.
abbrev raw : Pickle (List ℕ)
raw = record { dumps = λ bytes. bytes; loads = λ bytes. some bytes }

abbrev framed : List ℕ
framed = 0 ∷ 0 ∷ 0 ∷ 0 ∷ 0 ∷ 0 ∷ 0 ∷ 2 ∷ 40 ∷ 41 ∷ []

sends : send raw (40 ∷ 41 ∷ []) ≡ some framed
unfolding send pack
sends = refl

send-receive_example : receive raw (framed ++ 9 ∷ []) ≡ received (40 ∷ 41 ∷ []) (9 ∷ [])
send-receive_example = send-receive raw (40 ∷ 41 ∷ []) framed (9 ∷ []) refl sends

receive-take_example : receive raw (take 9 framed) ≡ closed
receive-take_example = receive-take raw (40 ∷ 41 ∷ []) framed 9 sends (omega arith)

-- A stream that ends within the header, and one that ends within the pickle.
cut_header : receive raw (0 ∷ 0 ∷ []) ≡ closed
unfolding receive
cut_header = refl

cut_body : receive raw (0 ∷ 0 ∷ 0 ∷ 0 ∷ 0 ∷ 0 ∷ 0 ∷ 2 ∷ 40 ∷ []) ≡ closed
unfolding receive
cut_body = refl
