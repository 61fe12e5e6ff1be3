-- ===== src/Listing/Pending.antt =====
-- daemon/list.go: containers that are being created, in the two lists of containers.
use hyperd.Prelude.{
  ◌+◌, ◌*◌, ◌≡◌, refl, sym, ap, ◌∙◌, arith, false, List, [], ◌∷◌, ◌++◌, map, length, length-append,
  append-nil,
}
use native.Mathlib.Nat.{suc-mul, zero-mul}
use hyperd.Listing.{
  Listed, Pod, container_entry, buffer_entry, list_containers, entry_string, container_strings,
  of_container, pod_strings, is_none, list_strings,
}

length-map {ℓ κ} :
    {A : Type ℓ} {B : Type κ} (f : A → B) (xs : List A) → length (map f xs) ≡ length xs
length-map f [] = refl
length-map f (x ∷ xs) = omega (arith, length-map f xs)

length-container_strings :
    (p : Pod) (cs : List Listed)
    → length (container_strings p cs) ≡ length cs * (length p.buffers + 1)
unfolding container_strings
length-container_strings p [] = sym (zero-mul (length p.buffers + 1))
length-container_strings p (c ∷ cs) = omega (
  arith,
  length-append (map (λ b. entry_string (buffer_entry p b)) p.buffers) (container_strings p cs),
  length-map (λ b. entry_string (buffer_entry p b)) p.buffers,
  length-container_strings p cs,
  suc-mul (length cs) (length p.buffers + 1),
)

-- The list for the texts (List) gives all the pending containers of a pod once for each container
-- that the pod has, so none of them if it has no other container; ListContainers gives each of them
-- once.
pub list_strings-list_containers :
    (p : Pod)
    → is_none p.status ≡ false
    → (length (list_strings of_container (p ∷ [])) ≡ length p.containers * (length p.buffers + 1))
      × (length (list_containers (p ∷ [])) ≡ length p.containers + length p.buffers)
unfolding list_strings pod_strings list_containers
list_strings-list_containers p h = (
  rw h (
      ap length (append-nil (container_strings p p.containers))
      ∙ length-container_strings p p.containers),
  length-append (map (container_entry p) p.containers) (map (buffer_entry p) p.buffers ++ [])
      ∙ omega (
        arith,
        length-map (container_entry p) p.containers,
        length-map (buffer_entry p) p.buffers,
        ap length (append-nil (map (buffer_entry p) p.buffers)),
      ),
)
