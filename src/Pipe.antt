-- ===== src/Pipe.antt =====
-- services/process_pipe.py: messages between the processes of a capture, each a pickle behind its
-- length. A stream is the list of the bytes that are still to be read.
use algo_guard.Prelude.{
  ℕ, zero, suc, ◌+◌, ◌-◌, ◌*◌, ◌/◌, ◌%◌, ◌^◌, ◌≤◌, ◌<◌, ◌≡◌, refl, ap, ◌∙◌, true, false, Option,
  none, some, List, [], ◌∷◌, ◌++◌, ltb, if◌then◌else◌, length, take, drop, arith, length-append,
  if_elim,
}
use native.Mathlib.Nat.{div-add-mod, mod-lt}
pub mod Framing
mod Tests

-- struct.Struct("!Q"): eight bytes, the highest first.
abbrev pub header_size : ℕ
header_size = 8

unfoldable pub pack : ℕ → ℕ → List ℕ
pack zero n = []
pack (suc size) n = pack size (n / 256) ++ n % 256 ∷ []

unfoldable pub unpack_onto : ℕ → List ℕ → ℕ
unpack_onto acc [] = acc
unpack_onto acc (byte ∷ bytes) = unpack_onto (acc * 256 + byte) bytes

unfoldable pub unpack : List ℕ → ℕ
unfolding unpack_onto
unpack bytes = unpack_onto 0 bytes

-- `pickle`: what a value is written as, and what bytes are read as.
pub record Pickle (V : Type 0) : Type 0 where
  pub dumps : V → List ℕ
  pub loads : List ℕ → Option V

-- How `receive` ends.
pub data Received (V : Type 0) : Type 0 where
  received : V → List ℕ → Received V
  closed : Received V
  unreadable : Received V

-- What `send` writes; `none` where `struct` has no room for the length.
unfoldable pub send : {V : Type 0} → Pickle V → V → Option (List ℕ)
unfolding pack
send p value =
    let body = p.dumps value in
    if ltb (length body) (256 ^ 8) then some (pack header_size (length body) ++ body) else none

unfoldable pub load : {V : Type 0} → Option V → List ℕ → Received V
load none rest = unreadable
load (some value) rest = received value rest

unfoldable pub receive : {V : Type 0} → Pickle V → List ℕ → Received V
unfolding unpack load
receive p stream =
    let header = take header_size stream in
    let after = drop header_size stream in
    let size = unpack header in
    let body = take size after in
    if ltb (length header) header_size
    then closed
    else if ltb (length body) size
    then closed
    else load (p.loads body) (drop size after)
