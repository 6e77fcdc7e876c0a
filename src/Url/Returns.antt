-- ===== src/Url/Returns.antt =====
-- The same file, that `parse` ends, and a `&` behind the request line.
use package_compile_sys.Common.{
  ℕ, zero, suc, ◌+◌, ◌<◌, ◌≡◌, ◌≢◌, refl, sym, ap, ◌∙◌, List, [], ◌∷◌, ◌++◌, Option, none, some,
  arith, take, drop, length, length-drop, length-append, Bool, true, false, append_assoc,
  append-nil, Option-cases, inl, inr, ==_refl,
}
use package_compile_sys.Url.{
  amp, equals, query, space, slash, find_first_of, find, until, UrlParam, UrlContex, part_end,
  para_of, push_para, para_parse, parse_cmd, parse, same, find_para, get_para_val,
}
use package_compile_sys.Url.Strings.{Lacks, Lacks-append, find_bound}
use package_compile_sys.Url.Parse.{
  IsParam, print_param, print_request, para_of-print, para_parse-amp, parse_cmd-query, parse-method,
  amp_ne, space-amp,
}

-- `para_parse` has a result, and it only appends parameters.
abbrev Appends : UrlContex → Option (Bool × UrlContex) → Type 0
Appends this o =
    (r : Bool) × (q : UrlContex) × (more : List UrlParam) × (o ≡ some (r, q))
    × (q.m_pars ≡ this.m_pars ++ more)

unchanged : (this : UrlContex) → Appends this (some (false, this))
unchanged this = (false, this, [], refl, sym (append-nil this.m_pars))

-- Fuel for one more part than there are characters is enough.
para_parse-Appends :
    (fuel : ℕ) (this : UrlContex) (tail : List ℕ)
    → length tail < fuel
    → Appends this (para_parse fuel this tail)
unfolding para_parse push_para
para_parse-Appends zero this tail h = absurd (omega arith)
para_parse-Appends (suc fuel) this tail h = elim (Option-cases (find_first_of amp tail)) [
  | inl a ↦ elim (Option-cases (para_of (until (part_end tail) tail))) [
    | inl b ↦ rw (para_parse, a, b) (unchanged this)
    | inr (para, b) ↦ rw (para_parse, a, b) (true, push_para this para, para ∷ [], refl, refl)
  ]
  | inr (idx, a) ↦ elim (Option-cases (para_of (take idx tail))) [
    | inl b ↦ rw (para_parse, a, b) (unchanged this)
    | inr (para, b) ↦
        let (r, q, more, e, m) =
          para_parse-Appends fuel (push_para this para) (drop (idx + 1) tail)
            (omega (arith, h, length-drop (idx + 1) tail, find_bound amp tail idx a)) in
        rw (para_parse, a, b) (r, q, para ∷ more, e, m ∙ append_assoc this.m_pars (para ∷ []) more)
  ]
]

some-none : (r : Bool × UrlContex) → some r ≢ none
some-none r e = cc

-- `parse` returns for each string: the recursion of `paraParse` ends.
pub parse-returns : (this : UrlContex) (url : List ℕ) → parse this url ≢ none
unfolding parse parse_cmd
parse-returns this url = elim (Option-cases (find (space ∷ slash ∷ []) url)) [
  | inl a ↦ rw (parse, a) (λ e. some-none _ e)
  | inr (idx, a) ↦
      let tail = drop (idx + 2) url in
      elim (Option-cases (find_first_of query tail)) [
        | inl b ↦ rw (parse, a, parse_cmd, b) (λ e. some-none _ e)
        | inr (i, b) ↦
            let (r, q, more, e, m) =
              para_parse-Appends (suc (length tail))
                (record { m_method = take idx url; m_cmd = take i tail; m_pars = this.m_pars })
                (drop (i + 1) tail) (omega (arith, length-drop (i + 1) tail)) in
            rw (parse, a, parse_cmd, b, e) (λ f. some-none _ f)
      ]
]

same_refl : (s : List ℕ) → same s s ≡ true
unfolding same
same_refl [] = refl
same_refl (x ∷ s) = rw (same, ==_refl x, same_refl s) refl

-- Let a fresh context parse a request with one parameter that can be read back, whose rest, behind the
-- space that ends the request line's target, has a `&`. `parse` returns, but `getParaVal` of the key
-- is the value with the space and all of the rest up to the `&`.
pub amp_behind_line :
    (method cmd before after : List ℕ) (p : UrlParam)
    → Lacks space method
    → Lacks query cmd
    → IsParam p
    → Lacks amp before
    → (r : Bool) × (q : UrlContex) × (parse
          (record { m_method = []; m_cmd = []; m_pars = [] })
          (print_request method cmd p [] (before ++ amp ∷ after))
        ≡ some (r, q))
      × (get_para_val q p.key ≡ p.value ++ space ∷ before)
unfolding push_para get_para_val find_para
amp_behind_line method cmd before after p lm lc is lb =
    let long : UrlParam = record { key = p.key; value = p.value ++ space ∷ before } in
    let this : UrlContex = record { m_method = method; m_cmd = cmd; m_pars = [] } in
    let tail = print_param p ++ space ∷ (before ++ amp ∷ after) in
    let n = length (cmd ++ query ∷ tail) in
    let shape : tail ≡ print_param long ++ amp ∷ after =
      sym (append_assoc (print_param p) (space ∷ before) (amp ∷ after))
      ∙ ap (λ s. s ++ amp ∷ after) (append_assoc p.key (equals ∷ p.value) (space ∷ before)) in
    let lacks : Lacks amp (print_param long) =
      Lacks-append amp p.key (equals ∷ long.value) is.key_amp
        (amp_ne, Lacks-append amp p.value (space ∷ before) is.value_amp (space-amp, lb)) in
    let (r, q, more, e, m) = para_parse-Appends n (push_para this long) after (
      omega (
        arith,
        length-append cmd (query ∷ tail),
        ap (λ (s : List ℕ). length s) shape,
        length-append (print_param long) (amp ∷ after),
      )) in
    (
      r,
      q,
      parse-method _ method (cmd ++ query ∷ tail) lm
          ∙ parse_cmd-query _ cmd tail lc
          ∙ ap (para_parse (suc n) this) shape
          ∙ para_parse-amp n this (print_param long) after long lacks
              (para_of-print long is.key_ends)
          ∙ e,
      rw (get_para_val, m, find_para, same_refl p.key) refl,
    )
