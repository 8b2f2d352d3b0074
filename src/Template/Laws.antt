-- ===== src/Template/Laws.antt =====
-- What replacing the placeholders of one pattern does to a text.
use gsactions_mcp.Common.{
  ℕ, Char, code, ◌≡◌, refl, sym, ap, ◌∙◌, Bool, true, false, Option, none, some, [], ◌∷◌, ◌++◌,
  append_assoc, append-nil, arith, nat_eq, length, length-append, All,
}
use gsactions_mcp.Template.{
  Pattern, Chars, strip_prefix, span, match_at, tail_length, replacement, scan, replace_all,
}

abbrev pub Lacks : ℕ → Chars → Type 0
Lacks b = All (λ c. nat_eq (code c) b ≡ false)

-- The opening begins with a brace, and the closing with a character outside the class.
pub record IsPattern (r : Pattern) : Type 0 where
  pub first : Char
  pub others : Chars
  pub opening_eq : r.opening ≡ first ∷ others
  pub first_brace : code first ≡ b'{'
  pub stop : Char
  pub behind : Chars
  pub closing_eq : r.closing ≡ stop ∷ behind
  pub stop_outside : r.in_class stop ≡ false

strip_prefix-append : (p s : Chars) → strip_prefix p (p ++ s) ≡ some s
unfolding strip_prefix
strip_prefix-append [] s = refl
strip_prefix-append (c ∷ p) s = ground (arith, strip_prefix-append p s)

span-append :
    (p : Char → Bool) (name : Chars) (c : Char) (s : Chars)
    → All (λ d. p d ≡ true) name
    → p c ≡ false
    → span p (name ++ c ∷ s) ≡ (name, c ∷ s)
unfolding span
span-append p [] c s h e = rw e
span-append p (d ∷ name) c s (hd, hs) e = rw (hd, span-append p name c s hs e)

scan_skip :
    (r : Pattern) (value : Chars → Option Chars) (xs s : Chars)
    → scan r value (length xs) (xs ++ s) ≡ scan r value 0 s
unfolding scan
scan_skip r value [] s = refl
scan_skip r value (c ∷ xs) s = scan_skip r value xs s

strip_prefix-other :
    (o : Char) (p : Chars) (c : Char) (s : Chars)
    → nat_eq (code o) (code c) ≡ false
    → strip_prefix (o ∷ p) (c ∷ s) ≡ none
unfolding strip_prefix
strip_prefix-other o p c s h = rw h

match_at-other :
    (r : Pattern) (c : Char) (s : Chars)
    → IsPattern r
    → nat_eq (code c) b'{' ≡ false
    → match_at r (c ∷ s) ≡ none
unfolding match_at
match_at-other r c s w h = rw (
  ap (λ p. strip_prefix p (c ∷ s)) w.opening_eq
      ∙ strip_prefix-other w.first w.others c s (ground arith),
  match_at,
)

span-closing :
    (r : Pattern) (name s : Chars)
    → IsPattern r
    → All (λ c. r.in_class c ≡ true) name
    → span r.in_class (name ++ (r.closing ++ s)) ≡ (name, r.closing ++ s)
span-closing r name s w h =
    rw w.closing_eq (span-append r.in_class name w.stop (w.behind ++ s) h w.stop_outside)

match_at-placeholder :
    (r : Pattern) (name s : Chars)
    → IsPattern r
    → All (λ c. r.in_class c ≡ true) name
    → r.is_name name ≡ true
    → match_at r (r.opening ++ (name ++ (r.closing ++ s))) ≡ some (name, s)
unfolding match_at
match_at-placeholder r name s w h n =
    rw (strip_prefix-append r.opening (name ++ (r.closing ++ s)), match_at)
      (rw (span-closing r name s w h, n, strip_prefix-append r.closing s))

pub scan-other :
    (r : Pattern) (value : Chars → Option Chars) (c : Char) (s : Chars)
    → match_at r (c ∷ s) ≡ none
    → scan r value 0 (c ∷ s) ≡ c ∷ scan r value 0 s
unfolding scan
scan-other r value c s h = rw (h, scan)

scan-match :
    (r : Pattern) (value : Chars → Option Chars) (c : Char) (s : Chars) {name t : Chars}
    → match_at r (c ∷ s) ≡ some (name, t)
    → scan r value 0 (c ∷ s) ≡ replacement r value name ++ scan r value (tail_length r name) s
unfolding scan
scan-match r value c s h = rw (h, scan)

-- A text with no brace before the next placeholder is copied.
scan-append :
    (r : Pattern) (value : Chars → Option Chars) (a s : Chars)
    → IsPattern r
    → Lacks b'{' a
    → scan r value 0 (a ++ s) ≡ a ++ scan r value 0 s
scan-append r value [] s w h = refl
scan-append r value (c ∷ a) s w (hc, hs) =
    rw (
      scan-other r value c (a ++ s) (match_at-other r c (a ++ s) w hc),
      scan-append r value a s w hs,
    )

-- The characters of a placeholder behind its first.
abbrev tail_of : (r : Pattern) → IsPattern r → Chars → Chars
tail_of r w name = w.others ++ (name ++ r.closing)

length-tail_of :
    (r : Pattern) (w : IsPattern r) (name : Chars) → tail_length r name ≡ length (tail_of r w name)
length-tail_of r w name = omega (
  arith,
  ap length w.opening_eq,
  length-append w.others (name ++ r.closing),
  length-append name r.closing,
)

whole :
    (r : Pattern) (w : IsPattern r) (name s : Chars)
    → r.opening ++ (name ++ (r.closing ++ s)) ≡ w.first ∷ (tail_of r w name ++ s)
whole r w name s = rw w.opening_eq (simp append_assoc)

scan-placeholder :
    (r : Pattern) (value : Chars → Option Chars) (name s : Chars)
    → IsPattern r
    → All (λ c. r.in_class c ≡ true) name
    → r.is_name name ≡ true
    → scan r value 0 (r.opening ++ (name ++ (r.closing ++ s)))
      ≡ replacement r value name ++ scan r value 0 s
scan-placeholder r value name s w h n =
    let found = rw (whole r w name s) at (match_at-placeholder r name s w h n) in
    ap (scan r value 0) (whole r w name s)
    ∙ scan-match r value w.first (tail_of r w name ++ s) found
    ∙ ap (λ t. replacement r value name ++ t)
        (ap (λ (n : ℕ). scan r value n (tail_of r w name ++ s)) (length-tail_of r w name)
          ∙ scan_skip r value (tail_of r w name) s)

module _ (r : Pattern) (value : Chars → Option Chars) (w : IsPattern r) where
  -- A text with no brace in it holds no placeholder, and is unchanged.
  pub replace_all-Lacks : (s : Chars) → Lacks b'{' s → replace_all r value s ≡ s
  unfolding replace_all
  replace_all-Lacks s h =
      sym (ap (replace_all r value) (append-nil s)) ∙ scan-append r value s [] w h ∙ append-nil s

  -- The first placeholder of a text is replaced, and the rest of the text is treated alike; what
  -- was put in is not read again.
  pub replace_all-placeholder :
      (a name s : Chars)
      → Lacks b'{' a
      → All (λ c. r.in_class c ≡ true) name
      → r.is_name name ≡ true
      → replace_all r value (a ++ (r.opening ++ (name ++ (r.closing ++ s))))
        ≡ a ++ (replacement r value name ++ replace_all r value s)
  unfolding replace_all
  replace_all-placeholder a name s ha h n =
      scan-append r value a _ w ha ∙ ap (λ t. a ++ t) (scan-placeholder r value name s w h n)
