-- ===== src/Names/Images.antt =====
-- utils/names.go: an image's name is taken apart as it was put together.
use hyperd.Prelude.{ℕ, ◌≡◌, refl, arith, Bool, false, none, some, [], ◌∷◌, ◌++◌, any, nat_beq}
use hyperd.Prelude.Text.{Text}
use hyperd.Names.{cut, cut_last, parse_image_repo_tag}

-- Is the byte in the text?
abbrev pub has : ℕ → Text → Bool
has c t = any (λ b. nat_beq b c) t

cut-append : (sep : ℕ) (s t : Text) → has sep s ≡ false → cut sep (s ++ sep ∷ t) ≡ (s, some t)
cut-append sep [] t h = ground arith
cut-append sep (c ∷ s) t h = ground (arith, cut-append sep s t)

has-append : (c : ℕ) (s t : Text) → has c s ≡ false → has c t ≡ false → has c (s ++ t) ≡ false
has-append c [] t h k = k
has-append c (b ∷ s) t h k = ground (arith, has-append c s t)

cut_last-none : (sep : ℕ) (t : Text) → has sep t ≡ false → cut_last sep t ≡ none
cut_last-none sep [] h = refl
cut_last-none sep (c ∷ t) h = ground (arith, cut_last-none sep t)

cut_last-append :
    (sep : ℕ) (s t : Text) → has sep t ≡ false → cut_last sep (s ++ sep ∷ t) ≡ some (s, t)
cut_last-append sep [] t h = ground (arith, cut_last-none sep t h)
cut_last-append sep (c ∷ s) t h = rw (cut_last-append sep s t h) refl

-- An image `repo/name:tag` is taken apart into these three, if neither the repository nor the name
-- has a colon and the name has no slash.
pub parse_image_repo_tag-parts :
    (repo name tag : Text)
    → has b':' repo ≡ false
    → has b':' name ≡ false
    → has b'/' name ≡ false
    → parse_image_repo_tag ((repo ++ b'/' ∷ name) ++ b':' ∷ tag) ≡ (repo, name, tag)
unfolding parse_image_repo_tag
parse_image_repo_tag-parts repo name tag r n s = ground (
  arith,
  cut-append b':' (repo ++ b'/' ∷ name) tag (has-append b':' repo (b'/' ∷ name) r n),
  cut_last-append b'/' repo name s,
)

-- If the repository begins with a host and a port, the image is taken apart at the port's colon:
-- the host becomes the image's name, and the port with all that follows the tag.
pub parse_image_repo_tag-port :
    (host rest : Text)
    → has b':' host ≡ false
    → has b'/' host ≡ false
    → parse_image_repo_tag (host ++ b':' ∷ rest) ≡ ([], host, rest)
unfolding parse_image_repo_tag
parse_image_repo_tag-port host rest c s =
    ground (arith, cut-append b':' host rest c, cut_last-none b'/' host s)
