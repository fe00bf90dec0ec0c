-- ===== src/Capture/Calls.antt =====
-- Which calls of the tracker a turn of the live capture is owed, by what it has received.
use mathlib.Core.List.{append_assoc}
use algo_guard.Prelude.{
  ℕ, ◌+◌, ◌≡◌, refl, Bool, true, false, ◌||◌, Option, none, some, List, [], ◌∷◌, ◌++◌, leb, ltb,
  ◌==◌, count_if, if◌then◌else◌,
}
use algo_guard.Flow.Packet.{PacketInfo}
use algo_guard.Flow.Features.{Event}
use algo_guard.Flow.Tracker.{Tracker}
use algo_guard.Flow.Feed.{Input, packet, sweep, hold, step}
use algo_guard.Capture.Connections.{Registry, matches}
use algo_guard.Capture.Live.{Moment, Own, web, cloud, is_syn, idle_check}

-- The calls of the tracker one after the other, without a flush.
unfoldable pub feed : Tracker → List Input → List Event × Tracker
unfolding step
feed t [] = ([], t)
feed t (i ∷ inputs) =
    let (events, t') = step t i in let (later, last) = feed t' inputs in (events ++ later, last)

pub feed-append :
    (t : Tracker) (xs ys : List Input)
    → feed t (xs ++ ys) ≡ ((feed t xs).0 ++ (feed (feed t xs).1 ys).0, (feed (feed t xs).1 ys).1)
unfolding feed
feed-append t [] ys = refl
feed-append t (x ∷ xs) ys =
    let (events, t') = step t x in
    let (later, last) = feed t' xs in
    rw (feed-append t' xs ys) (cc (append_assoc events later (feed last ys).0))

-- One of the two ports of the packet is listed.
abbrev pub uses_port : List ℕ → PacketInfo → Bool
uses_port ports info =
    ltb 0 (count_if (λ p. info.src_port == p) ports + count_if (λ p. info.dst_port == p) ports)

-- Whose the packet is: the web server's by its ports, the cloud's by the registry of connections or
-- by the maintainer's tools, or else of no part of the application. The registry after the look-up.
unfoldable pub own_of : List ℕ → Moment → PacketInfo → Registry → Option Own × Registry
unfolding matches
own_of ports m info owned =
    let (found, owned') = matches m.canonical m.opened m.clock info owned in
    if uses_port ports info
    then (some web, owned)
    else (if found || m.maintenance info (is_syn info) then some cloud else none, owned')

abbrev pub Kinds : Type 0
Kinds = List (PacketInfo × Option Own)

-- The packets of a turn in order, each with its owner.
unfoldable pub sort_all : List ℕ → Registry → List (Moment × PacketInfo) → Kinds × Registry
unfolding own_of
sort_all ports owned [] = ([], owned)
sort_all ports owned ((m, info) ∷ infos) =
    let (kind, owned') = own_of ports m info owned in
    let (sorted, last) = sort_all ports owned' infos in ((info, kind) ∷ sorted, last)

-- A foreign packet is fed to the tracker; the application's own only moves its time on.
abbrev pub call_of : PacketInfo × Option Own → Input
call_of (info, none) = packet info
call_of (info, some own) = sweep info.ts

abbrev pub ignored_call : Option ℕ → List Input
ignored_call none = []
ignored_call (some ts) = sweep ts ∷ []

abbrev pub timer_calls : ℕ → ℕ → List Input
timer_calls last now = hold now ∷ (if leb (last + idle_check) now then sweep now ∷ [] else [])

abbrev pub is_foreign : PacketInfo × Option Own → Bool
is_foreign (info, none) = true
is_foreign (info, some own) = false

abbrev pub is_own : PacketInfo × Option Own → Bool
is_own (info, none) = false
is_own (info, some own) = true

abbrev pub is_cloud : PacketInfo × Option Own → Bool
is_cloud (info, some cloud) = true
is_cloud (info, _) = false
