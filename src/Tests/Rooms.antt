-- ===== src/Tests/Rooms.antt =====
-- A room of two members and its code (server/internal/modules/rooms).
use vybe.Base.{
  ℕ, ◌≡◌, inl, inr, refl, sym, ap, true, false, some, none, List, [], ◌∷◌, arith, map, ◌∙◌,
}
use vybe.Base.Int.{pos}
use vybe.Rooms.Lifecycle.{Event}
use vybe.Rooms.Lifecycle.Machine.{opened, send_all, IsBalanced, send_all-IsBalanced}
use vybe.Rooms.Succession.{Participant, successor_for}
use vybe.Rooms.Succession.Agreement.{SameMembers, OneHost, successor_for_agrees}
use vybe.Rooms.JoinCode.{parse_join_code, new_join_code}
use vybe.Rooms.JoinCode.Canonical.{new_join_code-parses}

abbrev host : Participant
host = record {
  user_id = "h";
  joined_at = pos 1;
  connected = false;
  is_host = true;
  disconnected_at = some (pos 10);
}

abbrev guest : Participant
guest = record {
  user_id = "g";
  joined_at = pos 2;
  connected = true;
  is_host = false;
  disconnected_at = none;
}

send_all-IsBalanced_example :
    let g = send_all opened (Event.arm ∷ Event.start ∷ Event.reanchor ∷ Event.cancel ∷ []) in
    IsBalanced g.state g.armed g.settled
send_all-IsBalanced_example =
    send_all-IsBalanced (Event.arm ∷ Event.start ∷ Event.reanchor ∷ Event.cancel ∷ [])

swapped : SameMembers (host ∷ guest ∷ []) (guest ∷ host ∷ [])
swapped p = ground arith

guest_is_no_host : {A : Type 0} (p : Participant) → p ≡ guest → p.is_host ≡ true → A
guest_is_no_host p e h = let no : p.is_host ≡ false = ap (λ z. z.is_host) e in absurd cc

one_host : OneHost (host ∷ guest ∷ [])
one_host p q (inl e) (inl e') h h' = e ∙ sym e'
one_host p q (inl e) (inr (inl e')) h h' = guest_is_no_host q e' h'
one_host p q (inl e) (inr (inr x)) h h' = absurd x
one_host p q (inr (inr x)) o h h' = absurd x
one_host p q (inr (inl e)) o h h' = guest_is_no_host p e h

successor_for_agrees_example :
    successor_for (host ∷ guest ∷ []) (pos 100_000_000_000)
    ≡ successor_for (guest ∷ host ∷ []) (pos 100_000_000_000)
successor_for_agrees_example =
    successor_for_agrees (host ∷ guest ∷ []) (guest ∷ host ∷ []) (pos 100_000_000_000) swapped
      one_host

abbrev upper : ℕ → ℕ
upper r = r

new_join_code-parses_example :
    (code : List ℕ) × (new_join_code 6 (map some (10 ∷ 1 ∷ 0 ∷ 31 ∷ 31 ∷ 9 ∷ [])) ≡ some code)
    × (parse_join_code upper code ≡ some code)
new_join_code-parses_example =
    new_join_code-parses upper (10 ∷ 1 ∷ 0 ∷ 31 ∷ 31 ∷ 9 ∷ []) refl
      (omega arith, (omega arith, (omega arith, (omega arith, (omega arith, (omega arith, tt))))))
