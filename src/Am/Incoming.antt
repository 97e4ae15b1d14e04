-- ===== src/Am/Incoming.antt =====
-- src/am.rs: what a raw callback of an active message is told, `AmRecvParam`.
use ucx_rs.Base.{
  ℕ, ◌≡◌, Option, none, some, bit, bit_and-pow, ◌&&◌, not, ◌==◌, if◌then◌else◌, arith,
}
use ucx_rs.Masked.{contains}

-- `AmRecvAttr`.
abbrev pub attr_reply_ep : ℕ
attr_reply_ep = 1

pub record AmRecvParam : Type 0 where
  pub recv_attr : ℕ
  pub reply_ep : ℕ

-- Bits that are not known are kept.
abbrev pub recv_attr : AmRecvParam → ℕ
recv_attr p = p.recv_attr

unfoldable pub reply_ep : AmRecvParam → Option ℕ
reply_ep p =
    if contains (recv_attr p) attr_reply_ep && not (p.reply_ep == 0) then some p.reply_ep else none

-- There is an endpoint to reply on exactly when the lowest bit says so and the handle is not null.
reply_ep_lem :
    (p : AmRecvParam)
    → reply_ep p
      ≡ (if bit 0 p.recv_attr == 1 && not (p.reply_ep == 0) then some p.reply_ep else none)
unfolding reply_ep
reply_ep_lem p = rw (bit_and-pow 0 p.recv_attr) (ground arith)
