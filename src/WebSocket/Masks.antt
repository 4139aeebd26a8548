-- ===== src/WebSocket/Masks.antt =====
-- The mask of conn/ws.go.
use proto_q.Prelude.{ℕ, suc, ◌+◌, ◌≡◌, refl, ap, Bool, true, false, List, [], ◌∷◌, length}
use proto_q.Crc.Xor.{xor_cancel}
use proto_q.WebSocket.{key_at, mask_from, mask_bytes, unmask}

length-mask_from : (i : ℕ) (key bytes : List ℕ) → length (mask_from i key bytes) ≡ length bytes
length-mask_from i key [] = refl
length-mask_from i key (b ∷ bs) = ap suc (length-mask_from (i + 1) key bs)

mask_from-mask_from : (i : ℕ) (key bytes : List ℕ) → mask_from i key (mask_from i key bytes) ≡ bytes
mask_from-mask_from i key [] = refl
mask_from-mask_from i key (b ∷ bs) =
    rw (xor_cancel b (key_at key i), mask_from-mask_from (i + 1) key bs) refl

-- `maskBytes` keeps the number of the bytes, and a second time with the same key it restores them.
pub mask_bytes-mask_bytes :
    (key bytes : List ℕ)
    → (length (mask_bytes bytes key) ≡ length bytes)
      × (mask_bytes (mask_bytes bytes key) key ≡ bytes)
unfolding mask_bytes
mask_bytes-mask_bytes key bytes = (length-mask_from 0 key bytes, mask_from-mask_from 0 key bytes)

pub length-unmask :
    (masked : Bool) (key bytes : List ℕ) → length (unmask masked key bytes) ≡ length bytes
length-unmask true key bytes = (mask_bytes-mask_bytes key bytes).0
length-unmask false key bytes = refl
