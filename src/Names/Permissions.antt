-- ===== src/Names/Permissions.antt =====
-- utils/utils.go: the permissions that PermInt returns.
use hyperd.Prelude.{ℕ, ◌+◌, ◌*◌, ◌<◌, ◌≤◌, ◌≡◌, arith, some, [], ◌∷◌, nat_beq, if◌then◌else◌}
use hyperd.Prelude.Text.{Text}
use hyperd.Prelude.Int.{ℤ, pos, negsuc}
use hyperd.Names.{perm_int, parse_int, at_most_511, prefixed, atoi}

-- Four octal digits that begin with a zero, as in the usual "0755", are read without the digit
-- after the zero: the owner's permissions are lost.
pub perm_int-octal :
    (a b c : ℕ)
    → a < 8
    → b < 8
    → c < 8
    → perm_int (b'0' ∷ (b'0' + a) ∷ (b'0' + b) ∷ (b'0' + c) ∷ []) ≡ some (pos (b * 8 + c))
unfolding perm_int parse_int
perm_int-octal a b c la lb lc = ground arith

-- No permission is above 0777.
pub perm_int-le : (str : Text) (n : ℕ) → perm_int str ≡ some (pos n) → n ≤ 511
unfolding perm_int
perm_int-le [] n h = absurd (ground arith)
perm_int-le (c ∷ cs) n h =
    bound (if nat_beq c b'0' then prefixed cs else atoi (parse_int 10 (c ∷ cs))) (ground arith)
  where
    bound : (z : ℤ) → at_most_511 z ≡ pos n → n ≤ 511
    bound (pos m) e = ground arith
    bound (negsuc m) e = absurd (ground arith)
