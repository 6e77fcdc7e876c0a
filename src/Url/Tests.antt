-- ===== src/Url/Tests.antt =====
-- A request with two parameters, and the theorems at it.
use package_compile_sys.Common.{
  ℕ, ◌≡◌, ◌≢◌, refl, List, [], ◌∷◌, ◌++◌, some, none, Bool, true, arith,
}
use package_compile_sys.Url.{
  amp, space, find_first_of, find, starts_with, UrlParam, UrlContex, part_end, para_of, push_para,
  para_parse, parse_cmd, parse, get_para_val,
}
use package_compile_sys.Url.Parse.{IsParam, print_request, parse-print_request}
use package_compile_sys.Url.Returns.{parse-returns, amp_behind_line}

abbrev fresh : UrlContex
fresh = record { m_method = []; m_cmd = []; m_pars = [] }

-- `GET`, `on`, `a=1` and `b=22`.
abbrev get : List ℕ
get = 71 ∷ 69 ∷ 84 ∷ []

abbrev on : List ℕ
on = 111 ∷ 110 ∷ []

abbrev a_1 : UrlParam
a_1 = record { key = 97 ∷ []; value = 49 ∷ [] }

abbrev b_22 : UrlParam
b_22 = record { key = 98 ∷ []; value = 50 ∷ 50 ∷ [] }

a_1-IsParam : IsParam a_1
a_1-IsParam = record {
  key_ends = (λ e. omega (arith, e), tt);
  key_amp = (λ e. omega (arith, e), tt);
  key_space = (λ e. omega (arith, e), tt);
  value_amp = (λ e. omega (arith, e), tt);
  value_space = (λ e. omega (arith, e), tt);
}

b_22-IsParam : IsParam b_22
b_22-IsParam = record {
  key_ends = (λ e. omega (arith, e), tt);
  key_amp = (λ e. omega (arith, e), tt);
  key_space = (λ e. omega (arith, e), tt);
  value_amp = (λ e. omega (arith, e), (λ e. omega (arith, e), tt));
  value_space = (λ e. omega (arith, e), (λ e. omega (arith, e), tt));
}

second_value :
    parse fresh (print_request get on a_1 (b_22 ∷ []) get)
    ≡ some (true, record { m_method = get; m_cmd = on; m_pars = a_1 ∷ b_22 ∷ [] })
unfolding parse parse_cmd para_parse para_of push_para part_end find_first_of find starts_with
second_value = refl

parse-print_request_example :
    parse fresh (print_request get on a_1 (b_22 ∷ []) get)
    ≡ some (true, record { m_method = get; m_cmd = on; m_pars = a_1 ∷ b_22 ∷ [] })
parse-print_request_example =
    parse-print_request fresh get on get a_1 (b_22 ∷ [])
      (λ e. omega (arith, e), (λ e. omega (arith, e), (λ e. omega (arith, e), tt)))
      (λ e. omega (arith, e), (λ e. omega (arith, e), tt))
      (λ e. omega (arith, e), (λ e. omega (arith, e), (λ e. omega (arith, e), tt)))
      (a_1-IsParam, (b_22-IsParam, tt))

parse-returns_example : parse fresh (print_request get on a_1 (b_22 ∷ []) get) ≢ none
parse-returns_example = parse-returns fresh (print_request get on a_1 (b_22 ∷ []) get)

amp_behind_line_example :
    (r : Bool) × (q : UrlContex) × (parse fresh (print_request get on a_1 [] (on ++ amp ∷ on))
      ≡ some (r, q))
    × (get_para_val q (97 ∷ []) ≡ 49 ∷ space ∷ on)
amp_behind_line_example =
    amp_behind_line get on on on a_1
      (λ e. omega (arith, e), (λ e. omega (arith, e), (λ e. omega (arith, e), tt)))
      (λ e. omega (arith, e), (λ e. omega (arith, e), tt)) a_1-IsParam
      (λ e. omega (arith, e), (λ e. omega (arith, e), tt))
