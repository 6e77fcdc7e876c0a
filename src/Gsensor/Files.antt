-- ===== src/Gsensor/Files.antt =====
-- The same file, the descriptors: what a `gsensor_init` that failed leaves, and what `gsensor_release`
-- then closes.
use package_compile_sys.Common.{
  ℕ, ◌≡◌, refl, ap, ◌∙◌, List, [], ◌∷◌, ◌++◌, Option, none, some, Bool, true, false, append_assoc,
  append-nil, sym, Bool-cases, Option-cases, inl, inr,
}
use package_compile_sys.Gsensor.{Sensor}
use package_compile_sys.Gsensor.Device.{
  Entry, Call, close_fd, ioctl_name, open_input, find_input, same_name, is_dot, gsensor_name,
  cleared, init_input, gsensor_init, gsensor_release, close_input,
}

-- Without the input device `gsensor_init` fails and closes the sensor's descriptor last, but keeps
-- it: `gsensor_release` closes the same number a second time, and then keeps none.
pub release-failed_init :
    (fd : ℕ) (dir : Option (List Entry)) (created : Bool) (s : Sensor)
    → (open_input dir gsensor_name).0 ≡ none
    → (t : Sensor) × (calls : List Call) × (gsensor_init (some fd) dir created s
        ≡ (false, (t, calls ++ (close_fd fd ∷ []))))
      × ((gsensor_release t).1 ≡ close_fd fd ∷ [])
      × ((gsensor_release t).0.gsfd ≡ none)
      × ((gsensor_release t).0.gsinput ≡ none)
unfolding gsensor_init init_input gsensor_release close_input cleared
release-failed_init fd dir created s e = (
  record (cleared s) { gsfd = some fd },
  (open_input dir gsensor_name).1,
  rw (gsensor_init, e) refl,
  refl,
  refl,
  refl,
)

-- A directory without the device: every descriptor that is opened is closed again, in the order of
-- the entries, and only these are.
unfoldable pub tried : List Entry → List Call
tried [] = []
tried (de ∷ rest) = elim (is_dot de.d_name) [
  | true ↦ tried rest
  | false ↦ elim de.opened [
    | none ↦ tried rest
    | some fd ↦ ioctl_name fd ∷ close_fd fd ∷ tried rest
  ]
]

-- None of the entries has the name.
abbrev pub AreOther : List ℕ → List Entry → Type 0
AreOther inputname [] = Unit
AreOther inputname (de ∷ rest) = (same_name de.name inputname ≡ false) × AreOther inputname rest

find_input-tried :
    (inputname : List ℕ) (es : List Entry) (rest : List Entry) (calls : List Call)
    → AreOther inputname es
    → find_input inputname (es ++ rest) calls ≡ find_input inputname rest (calls ++ tried es)
unfolding find_input tried
find_input-tried inputname [] rest calls h = ap (find_input inputname rest) (sym (append-nil calls))
find_input-tried inputname (de ∷ es) rest calls h = elim (Bool-cases (is_dot de.d_name)) [
  | inl d ↦ rw (find_input, tried, d) (find_input-tried inputname es rest calls h.1)
  | inr d ↦ elim (Option-cases de.opened) [
    | inl o ↦ rw (find_input, tried, d, o) (find_input-tried inputname es rest calls h.1)
    | inr (fd, o) ↦
        rw (find_input, tried, d, o, h.0)
          (find_input-tried inputname es rest (calls ++ (ioctl_name fd ∷ close_fd fd ∷ [])) h.1
            ∙ ap (find_input inputname rest)
                (append_assoc calls (ioctl_name fd ∷ close_fd fd ∷ []) (tried es)))
  ]
]

-- Behind entries of other names comes one that is neither "." nor "..", opens as `fd` and has the
-- name: then `open_input` returns `fd`, has closed every file that it opened before, and opens none
-- behind it. Where all entries have other names it closes every file that it opened, and fails.
open_input_lem :
    (inputname : List ℕ) (es : List Entry) (de : Entry) (fd : ℕ) (rest : List Entry)
    → AreOther inputname es
    → is_dot de.d_name ≡ false
    → de.opened ≡ some fd
    → same_name de.name inputname ≡ true
    → (open_input (some (es ++ (de ∷ rest))) inputname
        ≡ (some fd, tried es ++ (ioctl_name fd ∷ [])))
      × (open_input (some es) inputname ≡ (none, tried es))
unfolding open_input find_input
open_input_lem inputname es de fd rest h d o n = (
  find_input-tried inputname es (de ∷ rest) [] h ∙ rw (find_input, d, o, n) refl,
  ap (λ l. find_input inputname l []) (sym (append-nil es)) ∙ find_input-tried inputname es [] [] h,
)
