-- ===== src/Tests/Messages.antt =====
-- Messages of tagged operations, at a concrete input.
use ucx_rs.Base.{◌≡◌, refl, true, none, some, [], ◌∷◌}
use ucx_rs.Tag.{MessageHandle, tag_probe, tag_msg_recv, tag_msg_recv_legacy}
use ucx_rs.Tag.Messages.{pending, is_some, probed_message}
use ucx_rs.Tests.{ucx, worker, param}

abbrev message : MessageHandle
message = record { handle = 4096; info = record { length = 0; sender_tag = 1 }; removed = true }

-- The test UCX finds the message at 4096.
probed_message_example :
    let h₁ = (tag_probe worker 5 7 true ucx []).1 in
    let r = tag_msg_recv worker 64 16 message param ucx h₁ in
    (pending ucx h₁ ≡ some (4096 ∷ []))
    × (is_some r.0 ≡ true)
    × (pending ucx r.1 ≡ some [])
    × (pending ucx (tag_msg_recv worker 64 16 message param ucx r.1).1 ≡ none)
    × (pending ucx (tag_msg_recv_legacy worker 64 16 8 message ucx h₁).1 ≡ some [])
unfolding tag_probe pending
probed_message_example =
    probed_message worker worker 5 7 true message 64 16 8 param ucx [] [] refl refl refl
