-- ===== src/Sending/Helper.antt =====
-- `PacketHelper::Update` of Base/Connection.cpp drops exactly the bytes that were sent.
use bugat.Common.{
  ℕ, ◌-◌, ◌≤◌, ◌≡◌, ◌↔◌, refl, sym, ◌∙◌, inl, inr, List, [], ◌∷◌, arith, leb, Bool-cases, length,
  drop, concat, length-append, drop-append_le, drop-append_lt, drop-nil,
}
use bugat.Sending.{helper_update}

-- Whatever number of bytes the socket has taken, what the helper keeps is the rest of the bytes.
pub helper_update-drop :
    (size : ℕ) (bufs : List (List ℕ)) → concat (helper_update size bufs) ≡ drop size (concat bufs)
unfolding helper_update
helper_update-drop size [] = sym (drop-nil size)
helper_update-drop size (buf ∷ bufs) = elim (Bool-cases (leb (length buf) size)) [
  | inl whole ↦ rw whole (
      helper_update-drop (size - length buf) bufs
      ∙ sym (drop-append_le size buf (concat bufs) (ground arith)))
  | inr part ↦ rw part (sym (drop-append_lt size buf (concat bufs) (ground arith)))
]

-- The helper is empty exactly when every byte has been taken.
pub helper_update-nil :
    (size : ℕ) (bufs : List (List ℕ))
    → (helper_update size bufs ≡ []) ↔ (length (concat bufs) ≤ size)
unfolding helper_update
helper_update-nil size [] = (λ e. omega arith, λ h. refl)
helper_update-nil size (buf ∷ bufs) =
    ground (arith, length-append buf (concat bufs), helper_update-nil (size - length buf) bufs)
