-- ===== src/Url/Parse.antt =====
-- The same file, what `parse` makes of a request.
use package_compile_sys.Common.{
  ℕ, zero, suc, ◌<◌, ◌≤◌, ◌≡◌, ◌≢◌, refl, ap, ◌∙◌, List, [], ◌∷◌, ◌++◌, some, arith, length,
  length-append, true, append_assoc,
}
use package_compile_sys.Url.{
  amp, equals, query, space, slash, starts_with, until, UrlParam, UrlContex, part_end, para_of,
  push_para, para_parse, parse_cmd, parse,
}
use package_compile_sys.Url.Strings.{
  Lacks, Lacks-append, find-lacking, find-there, find_word-there, take-length, drop-length,
}

-- A parameter that can be read back: neither part has an `&` or a space, and the key no `=`.
pub record IsParam (p : UrlParam) : Type 0 where
  pub key_ends : Lacks equals p.key
  pub key_amp : Lacks amp p.key
  pub key_space : Lacks space p.key
  pub value_amp : Lacks amp p.value
  pub value_space : Lacks space p.value

abbrev pub AllParams : List UrlParam → Type 0
AllParams [] = Unit {0}
AllParams (p ∷ ps) = IsParam p × AllParams ps

abbrev pub print_param : UrlParam → List ℕ
print_param p = p.key ++ equals ∷ p.value

abbrev pub print_params : UrlParam → List UrlParam → List ℕ
print_params p [] = print_param p
print_params p (q ∷ ps) = print_param p ++ amp ∷ print_params q ps

pub para_of-print : (p : UrlParam) → Lacks equals p.key → para_of (print_param p) ≡ some p
unfolding para_of
para_of-print p ends =
    rw
      (
        para_of,
        find-there equals p.key p.value ends,
        take-length p.key (equals ∷ p.value),
        drop-length p.key (equals ∷ p.value) 1,
      )
      refl

pub amp_ne : equals ≢ amp
amp_ne e = omega (arith, e)

pub space-amp : space ≢ amp
space-amp e = omega (arith, e)

space_ne : equals ≢ space
space_ne e = omega (arith, e)

print_amp : (p : UrlParam) → IsParam p → Lacks amp (print_param p)
print_amp p is = Lacks-append amp p.key (equals ∷ p.value) is.key_amp (amp_ne, is.value_amp)

print_space : (p : UrlParam) → IsParam p → Lacks space (print_param p)
print_space p is =
    Lacks-append space p.key (equals ∷ p.value) is.key_space (space_ne, is.value_space)

last_part :
    (s rest : List ℕ) → Lacks space s → until (part_end (s ++ space ∷ rest)) (s ++ space ∷ rest) ≡ s
unfolding part_end
last_part s rest l = rw (part_end, find-there space s rest l) (take-length s (space ∷ rest))

-- A parameter that ends with `&`.
pub para_parse-amp :
    (fuel : ℕ) (this : UrlContex) (s rest : List ℕ) (para : UrlParam)
    → Lacks amp s
    → para_of s ≡ some para
    → para_parse (suc fuel) this (s ++ amp ∷ rest) ≡ para_parse fuel (push_para this para) rest
unfolding para_parse
para_parse-amp fuel this s rest para l e =
    rw
      (
        para_parse,
        find-there amp s rest l,
        take-length s (amp ∷ rest),
        e,
        drop-length s (amp ∷ rest) 1,
      )
      refl

para_parse-print :
    (fuel : ℕ) (this : UrlContex) (p : UrlParam) (ps : List UrlParam) (rest : List ℕ)
    → length ps < fuel
    → IsParam p
    → AllParams ps
    → Lacks amp rest
    → para_parse fuel this (print_params p ps ++ space ∷ rest)
      ≡ some (true, record this { m_pars = this.m_pars ++ p ∷ ps })
unfolding para_parse push_para
para_parse-print zero this p ps rest h is all l = absurd (omega arith)
para_parse-print (suc fuel) this p [] rest h is all l =
    rw
      (
        para_parse,
        find-lacking amp (print_param p ++ space ∷ rest)
            (Lacks-append amp _ _ (print_amp p is) (space-amp, l)),
        last_part (print_param p) rest (print_space p is),
        para_of-print p is.key_ends,
      )
      refl
para_parse-print (suc fuel) this p (q ∷ ps) rest h is (is', all) l =
    let tail = print_params q ps ++ space ∷ rest in
    ap (para_parse (suc fuel) this)
      (append_assoc (print_param p) (amp ∷ print_params q ps) (space ∷ rest))
    ∙ para_parse-amp fuel this (print_param p) tail p (print_amp p is) (para_of-print p is.key_ends)
    ∙ para_parse-print fuel (push_para this p) q ps rest (omega (arith, h)) is' all l
    ∙ ap (λ pars. some (true, record this { m_pars = pars }))
        (append_assoc this.m_pars (p ∷ []) (q ∷ ps))

pub parse_cmd-query :
    (this : UrlContex) (cmd t : List ℕ)
    → Lacks query cmd
    → parse_cmd this (cmd ++ query ∷ t)
      ≡ para_parse (suc (length (cmd ++ query ∷ t))) (record this { m_cmd = cmd }) t
unfolding parse_cmd
parse_cmd-query this cmd t l =
    rw
      (
        parse_cmd,
        find-there query cmd t l,
        take-length cmd (query ∷ t),
        drop-length cmd (query ∷ t) 1,
      )
      refl

pub parse-method :
    (this : UrlContex) (method t : List ℕ)
    → Lacks space method
    → parse this (method ++ space ∷ slash ∷ t) ≡ parse_cmd (record this { m_method = method }) t
unfolding parse starts_with
parse-method this method t l =
    rw
      (
        parse,
        find_word-there space (slash ∷ []) method (space ∷ slash ∷ t) l refl,
        take-length method (space ∷ slash ∷ t),
        drop-length method (space ∷ slash ∷ t) 2,
      )
      refl

-- There are no more parameters than characters.
pub params-length : (p : UrlParam) (ps : List UrlParam) → length ps ≤ length (print_params p ps)
params-length p [] = omega arith
params-length p (q ∷ ps) =
    omega (arith, params-length q ps, length-append (print_param p) (amp ∷ print_params q ps))

abbrev pub print_request : List ℕ → List ℕ → UrlParam → List UrlParam → List ℕ → List ℕ
print_request method cmd p ps rest =
    method ++ space ∷ slash ∷ (cmd ++ query ∷ (print_params p ps ++ space ∷ rest))

-- Let a request consist of a method without a space, a command without `?`, parameters that can be read
-- back, and a rest without `&`, with a space and `/`, `?`, `&` and a space between them. `parse`
-- accepts it, stores the method and the command, and appends the parameters in their order.
pub parse-print_request :
    (this : UrlContex) (method cmd rest : List ℕ) (p : UrlParam) (ps : List UrlParam)
    → Lacks space method
    → Lacks query cmd
    → Lacks amp rest
    → AllParams (p ∷ ps)
    → parse this (print_request method cmd p ps rest)
      ≡ some (true, record { m_method = method; m_cmd = cmd; m_pars = this.m_pars ++ p ∷ ps })
parse-print_request this method cmd rest p ps lm lc lr (is, all) =
    let pars = print_params p ps ++ space ∷ rest in
    let tail = cmd ++ query ∷ pars in
    parse-method this method tail lm
    ∙ parse_cmd-query _ cmd pars lc
    ∙ para_parse-print (suc (length tail)) _ p ps rest
        (omega (
          arith,
          params-length p ps,
          length-append cmd (query ∷ pars),
          length-append (print_params p ps) (space ∷ rest),
        ))
        is all lr
