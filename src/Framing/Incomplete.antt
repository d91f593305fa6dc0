-- ===== src/Framing/Incomplete.antt =====
-- A part of a frame at the end of the buffer: the receiver waits for the rest.
use io_trepublic_plus.Base.{
  ℕ, suc, ◌+◌, ◌^◌, ◌<◌, ◌≤◌, ◌≡◌, ◌≢◌, ◌⊎◌, inl, inr, refl, sym, subst, ap, ◌∙◌, some, [], ◌∷◌,
  ◌++◌, arith, Bytes, length, take, All, ltb, Bool-cases, length-append, lt→not-leb, lt→ltb,
  str_eq_iff,
}
use io_trepublic_plus.Package.{columns}
use io_trepublic_plus.Framing.{
  GetPackageError, length_is_not_long_enough, header_not_completed, package_not_completed,
  iot_utility, is_valid_package, is_start_word, check_completed, check_length,
  get_completed_package, refused,
}
use io_trepublic_plus.Framing.Columns.{
  IsText, symbols, symbols-append, symbols-text, count_columns-symbols, decode_only_header-columns,
}
use io_trepublic_plus.Framing.Frame.{
  Frame, IsFrame, body, head_bytes, header_of_frame, needed, leb-to_int, columns-append,
  body-length,
}
use io_trepublic_plus.Framing.Decode.{is_valid_package-columns}

cons-eq : {x y : ℕ} {xs ys : Bytes} → x ∷ xs ≡ y ∷ ys → (x ≡ y) × (xs ≡ ys)
cons-eq h = (cc, cc)

-- A front part of a text and its symbol either ends before the symbol or holds both.
column-cases :
    (pre suf c ys : Bytes)
    → All IsText c
    → pre ++ suf ≡ c ++ (0 ∷ ys)
    → (symbols pre ≡ 0) ⊎ ((zs : Bytes) × (pre ≡ c ++ (0 ∷ zs)) × (zs ++ suf ≡ ys))
column-cases [] suf c ys t e = inl refl
column-cases (p ∷ pre) suf [] ys t e = let (h, r) = cons-eq e in inr (pre, ap (λ x. x ∷ pre) h, r)
column-cases (p ∷ pre) suf (x ∷ c) ys t e =
    let (h, r) = cons-eq e in
    elim (column-cases pre suf c ys t.1 r) [
      | inl none_yet ↦ inl (ground arith)
      | inr (zs, e1, e2) ↦ inr (zs, λ i. h i ∷ e1 i, e2)
    ]

abbrev AfterColumns : ℕ → (Bytes → Bytes) → Bytes → Bytes → Bytes → Type 0
AfterColumns n f pre suf rest =
    (symbols pre < n) ⊎ ((zs : Bytes) × (pre ≡ f zs) × (zs ++ suf ≡ rest))

column-step :
    (n : ℕ) (f : Bytes → Bytes) (pre suf c ys rest : Bytes)
    → All IsText c
    → pre ++ suf ≡ c ++ (0 ∷ ys)
    → ((zs : Bytes) → zs ++ suf ≡ ys → AfterColumns n f zs suf rest)
    → AfterColumns (suc n) (λ zs. c ++ (0 ∷ f zs)) pre suf rest
column-step n f pre suf c ys rest t e next = elim (column-cases pre suf c ys t e) [
  | inl z ↦ inl (omega arith)
  | inr (zs, e1, e2) ↦ elim (next zs e2) [
    | inl few ↦ inl (rw e1 (omega (arith, symbols-append c (0 ∷ zs), symbols-text c t)))
    | inr (ws, e3, e4) ↦ inr (ws, e1 ∙ ap (λ x. c ++ (0 ∷ x)) e3, e4)
  ]
]

-- A front part of a frame has fewer than five symbols or the whole header.
columns-cases :
    (pre suf c1 c2 c3 c4 c5 rest : Bytes)
    → All IsText c1
    → All IsText c2
    → All IsText c3
    → All IsText c4
    → All IsText c5
    → pre ++ suf ≡ columns c1 c2 c3 c4 c5 rest
    → AfterColumns 5 (columns c1 c2 c3 c4 c5) pre suf rest
columns-cases pre suf c1 c2 c3 c4 c5 rest t1 t2 t3 t4 t5 e =
    column-step 4 _ pre suf c1 _ rest t1 e λ z1 e1. column-step 3 _ z1 suf c2 _ rest t2 e1 λ z2 e2.
      column-step 2 _ z2 suf c3 _ rest t3 e2 λ z3 e3.
        column-step 1 _ z3 suf c4 _ rest t4 e3
          λ z4 e4. column-step 0 (λ zs. zs) z4 suf c5 rest rest t5 e4 λ z5 e5. inr (z5, refl, e5)

take-of_append :
    (pre suf xs ys : Bytes)
    → pre ++ suf ≡ xs ++ ys
    → length xs ≤ length pre
    → take (length xs) pre ≡ xs
take-of_append pre suf [] ys e h = refl
take-of_append [] suf (x ∷ xs) ys e h = absurd (omega arith)
take-of_append (p ∷ pre) suf (x ∷ xs) ys e h =
    let (a, r) = cons-eq e in λ i. a i ∷ take-of_append pre suf xs ys r (omega arith) i

-- The errors by which the receiver waits for more.
abbrev pub IsIncomplete : GetPackageError → Type 0
IsIncomplete e =
    (e ≡ length_is_not_long_enough) ⊎ ((e ≡ header_not_completed) ⊎ (e ≡ package_not_completed))

abbrev pub Waits : ℕ → Bytes → Bytes → Type 0
Waits symbol ver pre =
    (e : GetPackageError) × IsIncomplete e
    × (get_completed_package (iot_utility ver symbol) pre ≡ some (refused e pre))

-- The receiver waits for the header.
abbrev pub WaitsForHeader : ℕ → Bytes → Bytes → Type 0
WaitsForHeader symbol ver pre =
    (e : GetPackageError) × ((e ≡ length_is_not_long_enough) ⊎ (e ≡ header_not_completed))
    × (get_completed_package (iot_utility ver symbol) pre ≡ some (refused e pre))

-- The receiver has the header and waits for the rest.
abbrev pub WaitsForRest : ℕ → Bytes → Bytes → Type 0
WaitsForRest symbol ver pre =
    get_completed_package (iot_utility ver symbol) pre ≡ some (refused package_not_completed pre)

few_symbols-WaitsForHeader :
    (pre suf ver ys : Bytes) (symbol : ℕ)
    → pre ++ suf ≡ ver ++ ys
    → symbols pre < 5
    → WaitsForHeader symbol ver pre
unfolding get_completed_package is_valid_package is_start_word
few_symbols-WaitsForHeader pre suf ver ys symbol e few =
    elim (Bool-cases (ltb (length pre) (length ver))) [
      | inl h ↦ (length_is_not_long_enough, inl refl, rw h)
      | inr h ↦ (
        header_not_completed,
        inr refl,
        rw (
          h,
          take-of_append pre suf ver ys e (ground arith),
          (str_eq_iff ver ver).1 refl,
          count_columns-symbols 5 0 pre (omega arith),
          lt→ltb (0 + symbols pre) 5 (omega arith),
        ),
      )
    ]

length-pos : (xs : Bytes) → xs ≢ [] → 0 < length xs
length-pos [] h = absurd (h refl)
length-pos (x ∷ xs) h = omega arith

module _ (f : Frame) (k : IsFrame f) where
  check_length-short :
      (buffer : Bytes)
      → length buffer < length (body f) + 2
      → length buffer < 2 ^ 31
      → check_length buffer (header_of_frame f) ≡ some (package_not_completed, buffer)
  unfolding check_length
  check_length-short buffer h short = rw (
    needed f k,
    leb-to_int (length (body f) + 2) (length buffer) short,
    lt→not-leb (length (body f) + 2) (length buffer) h,
  )

  whole_header-WaitsForRest :
      (zs : Bytes) (symbol : ℕ)
      → length (head_bytes f zs) < length (body f) + 2
      → length (head_bytes f zs) < 2 ^ 31
      → WaitsForRest symbol f.ver (head_bytes f zs)
  unfolding get_completed_package check_completed
  whole_header-WaitsForRest zs symbol h short = rw (
    is_valid_package-columns f.ver f.header_text f.data_text f.sor_ip f.des_ip zs symbol,
    decode_only_header-columns zs k.header,
    check_length-short (head_bytes f zs) h short,
  )

  pub whole_header-symbols : (zs : Bytes) → 5 ≤ symbols (head_bytes f zs)
  whole_header-symbols zs = omega (
    arith,
    symbols-append f.ver (
        0
        ∷ (f.header_text
            ++ (0 ∷ (f.data_text ++ (0 ∷ (f.sor_ip ++ (0 ∷ (f.des_ip ++ (0 ∷ zs))))))))),
    symbols-append f.header_text
        (0 ∷ (f.data_text ++ (0 ∷ (f.sor_ip ++ (0 ∷ (f.des_ip ++ (0 ∷ zs))))))),
    symbols-append f.data_text (0 ∷ (f.sor_ip ++ (0 ∷ (f.des_ip ++ (0 ∷ zs))))),
    symbols-append f.sor_ip (0 ∷ (f.des_ip ++ (0 ∷ zs))),
    symbols-append f.des_ip (0 ∷ zs),
  )

  -- A proper front part of a frame: the receiver waits for the header while there are fewer than five
  -- '\0', then for the rest.
  pub incomplete-cases :
      (high low : ℕ) (pre suf : Bytes) (symbol : ℕ)
      → pre ++ suf ≡ body f ++ (high ∷ low ∷ [])
      → suf ≢ []
      → ((symbols pre < 5) × WaitsForHeader symbol f.ver pre)
        ⊎ ((5 ≤ symbols pre) × WaitsForRest symbol f.ver pre)
  incomplete-cases high low pre suf symbol e more =
      let tail : Bytes = f.content ++ (high ∷ low ∷ []) in
      let whole : pre ++ suf ≡ head_bytes f tail =
        e
        ∙ columns-append f.ver f.header_text f.data_text f.sor_ip f.des_ip f.content
            (high ∷ low ∷ []) in
      let shorter : length pre < length (body f) + 2 = omega (
        arith,
        ap length e,
        length-append pre suf,
        length-append (body f) (high ∷ low ∷ []),
        length-pos suf more,
      ) in
      elim (columns-cases pre suf f.ver f.header_text f.data_text f.sor_ip f.des_ip tail
        k.header.text1 k.header.text2 k.header.text3 k.header.text4 k.header.text5 whole) [
          | inl few ↦ inl (few, few_symbols-WaitsForHeader pre suf f.ver _ symbol whole few)
          | inr (zs, e1, _) ↦ inr (
            subst (λ x. 5 ≤ symbols x) (sym e1) (whole_header-symbols zs),
            subst (WaitsForRest symbol f.ver) (sym e1) (
                whole_header-WaitsForRest zs symbol
                  (subst (λ x. length x < length (body f) + 2) e1 shorter)
                  (subst (λ x. length x < 2 ^ 31) e1 (omega (arith, body-length f k, k.fits)))),
          )
        ]

  -- Any proper front part of a frame, the empty one too, is left in the buffer as it is, and the
  -- receiver reports one of the three errors that stand for a package not completed.
  pub get_completed_package-IsIncomplete :
      (high low : ℕ) (pre suf : Bytes) (symbol : ℕ)
      → pre ++ suf ≡ body f ++ (high ∷ low ∷ [])
      → suf ≢ []
      → Waits symbol f.ver pre
  get_completed_package-IsIncomplete high low pre suf symbol e more =
      elim (incomplete-cases high low pre suf symbol e more) [
        | inl (_, (error, inl h, q)) ↦ (error, inl h, q)
        | inl (_, (error, inr h, q)) ↦ (error, inr (inl h), q)
        | inr (_, q) ↦ (package_not_completed, inr (inr refl), q)
      ]
