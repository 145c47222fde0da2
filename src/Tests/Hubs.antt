-- ===== src/Tests/Hubs.antt =====
-- A room with a phone and a tablet of one user and the phone of another
-- (server/internal/modules/realtime/hub.go).
use vybe.Base.{
  ℕ, ◌≡◌, refl, ◌⊎◌, ◌&&◌, ◌||◌, Bool, true, not, [], ◌∷◌, ◌++◌, map, if◌then◌else◌, Occurs, ◌==◌,
}
use vybe.Base.Maps.{entry}
use vybe.Base.Int.{pos}
use vybe.Base.Text.{String}
use vybe.Realtime.EventLog.{Envelope, validate, contains_text}
use vybe.Realtime.Hub.{Sink, Hub, accepts, new_conn, targets, members_of, publish_to}
use vybe.Realtime.Hub.Delivery.{
  has_handle, IsDistinct, audience, publish_to-delivers, publish_to-private,
}

abbrev sink : String → String → ℕ → Sink
sink user conn handle = record { user_id = user; conn_id = conn; handle = handle }

abbrev hub : Hub
hub = record {
  rooms =
      (
        "r",
        ("phone", sink "u" "phone" 0)
            ∷ ("tablet", sink "u" "tablet" 1)
            ∷ ("other", sink "v" "other" 2)
            ∷ [],
      )
      ∷ [];
  conns = λ handle. record new_conn { done = handle == 0 };
}

abbrev chat : Envelope
chat = record {
  v = pos 1;
  id = "e";
  room = "r";
  seq = pos 1;
  kind = "CHAT_MESSAGE";
  ts = pos 1;
  actor = "u";
  payload = 123 ∷ 125 ∷ [];
}

abbrev first_case : ℕ → Bool
first_case handle = true

publish_to-delivers_example :
    let after = (publish_to first_case hub chat ("u" ∷ [])).0.conns 1 in
    (after.send ≡ (
      if has_handle 1 (audience hub chat ("u" ∷ [])) && accepts true (hub.conns 1)
      then (hub.conns 1).send ++ chat ∷ []
      else (hub.conns 1).send))
    × (after.done ≡ (
        (hub.conns 1).done
        || has_handle 1 (audience hub chat ("u" ∷ [])) && not (accepts true (hub.conns 1))))
unfolding validate targets members_of entry contains_text has_handle IsDistinct
publish_to-delivers_example =
    publish_to-delivers first_case hub chat ("u" ∷ []) 1 refl (refl, (refl, tt))

publish_to-private_example :
    (((publish_to first_case hub chat ("v" ∷ [])).0.conns 1).send ≡ (hub.conns 1).send)
    ⊎ ((s : Sink) × (s.handle ≡ 1)
        × (contains_text s.user_id ("v" ∷ []) ≡ true)
        × Occurs s (map (λ x. x.1) (members_of hub.rooms "r")))
publish_to-private_example = publish_to-private first_case hub chat "v" [] 1
