-- ===== src/Escape.antt =====
-- daemon/pod/container.go: copyEscapable, the copy of a terminal's input to a container that ends
-- when the detach keys come in. The source is the list of what its reads return, and end of file
-- after that; the destination is the parameter `write`, which answers with the number of bytes
-- written and an error. A Go `for` loop is a recursion on fuel; `none` means that it ran out.
pub mod Ends
pub mod Keys
pub mod Transparent
use hyperd.Prelude.{
  ℕ, zero, suc, ◌+◌, ◌⊎◌, inl, inr, Bool, true, false, not, Option, none, some, List, [], ◌∷◌, ◌++◌,
  length, if◌then◌else◌, nat_beq,
}
use hyperd.Prelude.Text.{Text}

pub data Error : Type 0 where
  eof read_failed write_failed short_write detach : Error

-- What src.Read returns: the bytes and the error.
pub record Read : Type 0 where
  pub bytes : Text
  pub error : Option Error

abbrev pub end_of_file : Read
end_of_file = record { bytes = []; error = some eof }

-- src.Read
abbrev pub next : List Read → Read × List Read
next [] = (end_of_file, [])
next (r ∷ rs) = (r, rs)

abbrev pub default_keys : Text
default_keys = 16 ∷ 17 ∷ []

abbrev pub or_default : Text → Text
or_default [] = default_keys
or_default (k ∷ ks) = k ∷ ks

-- `nr == 1 && buf[0] == key`
abbrev pub is_key : Text → ℕ → Bool
is_key (b ∷ []) key = nat_beq b key
is_key _ key = false

-- What the inner loop over the keys makes of a read: the preserved bytes, the last read's error
-- and the reads left, or a detachment with the reads left.
pub data Preserved : Type 0 where
  kept : Text → Option Error → List Read → Preserved
  detached : List Read → Preserved

unfoldable pub key_loop : Text → Read → Text → List Read → Preserved
key_loop [] r preserved rs = kept preserved r.error rs
key_loop (key ∷ []) r preserved rs =
    if is_key r.bytes key then detached rs else kept (preserved ++ r.bytes) r.error rs
key_loop (key ∷ k ∷ ks) r preserved rs =
    let rest = key_loop (k ∷ ks) (next rs).0 (preserved ++ r.bytes) (next rs).1 in
    if is_key r.bytes key then rest else kept (preserved ++ r.bytes) r.error rs

abbrev is_nil : Text → Bool
is_nil [] = true
is_nil (b ∷ bs) = false

module _ {W : Type 0} (write : Text → W → W × ℕ × Option Error) where
  -- The result: the bytes written, the error, the destination and the reads left.
  abbrev pub Outcome : Type 0
  Outcome = ℕ × Option Error × W × List Read

  -- The end of a round: `er` is the error of the last read.
  unfoldable pub end_round : Option Error → ℕ → W → List Read → Outcome ⊎ (ℕ × W)
  end_round none written w rs = inr (written, w)
  end_round (some eof) written w rs = inl (written, none, w, rs)
  end_round (some e) written w rs = inl (written, some e, w, rs)

  -- One round with bytes read: the write of the preserved bytes.
  unfoldable pub write_round : Text → Option Error → ℕ → W → List Read → Outcome ⊎ (ℕ × W)
  unfolding end_round
  write_round preserved er written w rs =
      let (w', nw, ew) = write preserved w in
      elim ew [
        | some e ↦ inl (written + nw, some e, w', rs)
        | none ↦
            if nat_beq (length preserved) nw
            then end_round er (written + nw) w' rs
            else inl (written + nw, some short_write, w', rs)
      ]

  abbrev pub or_again : Outcome ⊎ (ℕ × W) → (ℕ → W → Option Outcome) → Option Outcome
  or_again (inl outcome) again = some outcome
  or_again (inr (written, w)) again = again written w

  abbrev pub unless_detached :
      Preserved → W → (Text → Option Error → List Read → Option Outcome) → Option Outcome
  unless_detached (detached rs) w k = some (0, some detach, w, rs)
  unless_detached (kept preserved er rs) w k = k preserved er rs

  unfoldable pub copy_loop : ℕ → Text → ℕ → W → List Read → Option Outcome
  unfolding key_loop write_round end_round
  copy_loop zero keys written w rs = none
  copy_loop (suc fuel) keys written w rs =
      let r = (next rs).0 in
      let rs1 = (next rs).1 in
      let ended =
        or_again (end_round r.error written w rs1) (λ n w'. copy_loop fuel keys n w' rs1) in
      let copied = unless_detached (key_loop keys r [] rs1) w (λ preserved er left.
        or_again (write_round preserved er written w left)
          (λ n w'. copy_loop fuel keys n w' left)) in
      if is_nil r.bytes then ended else copied

  -- Each round takes a read, and the end of file ends the loop.
  unfoldable pub copy_escapable : Text → W → List Read → Option Outcome
  unfolding copy_loop
  copy_escapable keys w rs = copy_loop (length rs + 1) (or_default keys) 0 w rs
