-- ===== src/Connection/Consumed.antt =====
-- Which bytes `wmConnection_consumeRecvBuffer` takes.
use warrior_man.Prelude.{
  ℕ, ◌+◌, ◌-◌, ◌≤◌, ◌<◌, ◌≡◌, refl, sym, ap, ◌∙◌, arith, some, [], ◌∷◌, take, drop, splice,
  length-splice, take-drop, take-take, ltb_of_lt,
}
use warrior_man.WmString.{WmString, end_at}
use warrior_man.WmString.Room.{IsValid, text, end_at_lem, take-end_mark}
use warrior_man.Socket.Sending.{pending}
use warrior_man.Connection.Life.{Connection, consume_recv_buffer}

-- Fewer bytes consumed than there are unread ones in a valid buffer: the last of them are gone, and the first are left,
-- so that what is read next is what was to be consumed.
pub consume_lem :
    (c : Connection) (n : ℕ) (b : WmString)
    → c.read_packet_buffer ≡ some b
    → IsValid b
    → b.offset ≤ b.length
    → n < b.length - b.offset
    → (c' : Connection) × ((b' : WmString) × (consume_recv_buffer c n ≡ some c')
        × (c'.read_packet_buffer ≡ some b')
        × IsValid b'
        × (pending b' ≡ take (b.length - b.offset - n) (pending b)))
unfolding consume_recv_buffer
consume_lem c n b h v ho hn =
    let block = splice b.str (b.length - n) (0 ∷ []) in
    let b' : WmString = record b { length = b.length - n; str = block } in
    let c' : Connection = record c { read_packet_buffer = some b' } in
    let ended : end_at b (b.length - n) ≡ some b' =
      end_at_lem b (b.length - n) v.block (omega (arith, v.fits)) in
    let unread : b.offset + (b.length - b.offset - n) ≡ b.length - n = omega arith in
    (
      c',
      (
        b',
        ground (arith, h, ended, ltb_of_lt n (b.length - b.offset) hn),
        refl,
        record {
          block =
              length-splice b.str (b.length - n) (0 ∷ []) (omega (arith, v.block, v.fits))
              ∙ v.block;
          fits = omega (arith, v.fits);
        },
        ap (drop b.offset) (
              take-end_mark b.str (b.length - n) (omega (arith, v.block, v.fits))
              ∙ sym (take-take (b.length - n) b.length b.str (omega arith))
              ∙ ap (λ k. take k (text b)) (sym unread))
            ∙ sym (take-drop (b.length - b.offset - n) b.offset (text b)),
      ),
    )
