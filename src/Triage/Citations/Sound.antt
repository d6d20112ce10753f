-- ===== src/Triage/Citations/Sound.antt =====
-- What `citations` of apps/api/app/triage.py reports.
use mathlib.Core.List.{Memᴰ}
use mathlib.Core.Path.{subst}
use triage_assistant.Prelude.{
  ◌+++◌, subst, All-keep, ℕ, zero, suc, ◌+◌, String, ◌≡◌, refl, inl, inr, Bool, false, not, Option,
  none, some, List, [], ◌∷◌, All, All-map, All-keep_of_All, Bool-cases, arith, length, keep,
  get_elem?, ◌==◌, ◌≤◌, ◌<◌, ◌⊎◌, ◌≢◌,
}
use triage_assistant.Triage.Hits.{Hit}
use triage_assistant.Triage.Citations.{
  decimal, sort_one, Characters, Citation, ref_of, cited_as, find_numbers, once, section_at,
  sort_citations, citations,
}

module _ (characters : Characters) where
  abbrev pub ref : ℕ → String
  ref n = "R" +++ decimal n

  -- A section as it is reported under a number.
  abbrev pub reported : ℕ → Hit → Citation
  reported n hit = record {
    ref = ref n;
    runbook_id = hit.runbook_id;
    title = hit.title;
    heading = hit.heading;
  }

  -- A citation of a section that the context has, and a number that it does not have.
  abbrev pub Valid : List Hit → Citation → Type 0
  Valid sections c =
      (n : ℕ) × (hit : Hit) × (get_elem? sections n ≡ some hit) × (c ≡ reported (suc n) hit)

  abbrev pub Invented : List Hit → String → Type 0
  Invented sections r = (n : ℕ) × (r ≡ ref n) × ((n ≡ 0) ⊎ (length sections < n))

  -- A number is reported under itself: with the section that has it, or as one that none has.
  abbrev pub Reported : List Hit → List Citation → List String → ℕ → Type 0
  Reported sections cited invalid n =
      ((i : ℕ) × (hit : Hit) × (n ≡ suc i)
        × (get_elem? sections i ≡ some hit)
        × Memᴰ (reported n hit) cited)
      ⊎ (((n ≡ 0) ⊎ (length sections < n)) × Memᴰ (ref n) invalid)

  get_none : (sections : List Hit) (n : ℕ) → get_elem? sections n ≡ none → length sections ≤ n
  get_none [] n h = omega arith
  get_none (x ∷ xs) zero h = absurd (ground (arith, h))
  get_none (x ∷ xs) (suc n) h = omega (arith, get_none xs n h)

  no_section :
      (sections : List Hit) (n : ℕ)
      → section_at characters sections n ≡ none
      → (n ≡ 0) ⊎ (length sections < n)
  unfolding section_at
  no_section sections zero h = inl refl
  no_section sections (suc n) h = inr (omega (arith, get_none sections n h))

  valid :
      (sections : List Hit) (n : ℕ) (hit : Hit)
      → section_at characters sections n ≡ some hit
      → Valid sections (cited_as n hit)
  unfolding section_at cited_as ref_of
  valid sections zero hit h = absurd (ground (arith, h))
  valid sections (suc n) hit h = (n, hit, h, refl)

  abbrev Sorted : List Hit → ℕ → List ℕ → List Citation × List String → Type 0
  Sorted sections k ns (cited, invalid) =
      All (Valid sections) cited
      × All (Invented sections) invalid
      × All (Reported sections cited invalid) ns
      × (length cited + length invalid ≡ k)

  one_Reported :
      (sections : List Hit) (n m : ℕ) (r : List Citation × List String) (o : Option Hit)
      → Reported sections r.0 r.1 m
      → Reported sections (sort_one characters n o r).0 (sort_one characters n o r).1 m
  unfolding sort_one
  one_Reported sections n m r none (inl (i, hit, e, at_i, cited)) = inl (i, hit, e, at_i, cited)
  one_Reported sections n m r none (inr (outside, invalid)) = inr (outside, Memᴰ.tail invalid)
  one_Reported sections n m r (some h) (inl (i, hit, e, at_i, cited)) =
      inl (i, hit, e, at_i, Memᴰ.tail cited)
  one_Reported sections n m r (some h) (inr (outside, invalid)) = inr (outside, invalid)

  self_Reported :
      (sections : List Hit) (n : ℕ) (r : List Citation × List String) (o : Option Hit)
      → section_at characters sections n ≡ o
      → Reported sections (sort_one characters n o r).0 (sort_one characters n o r).1 n
  unfolding sort_one ref_of cited_as section_at
  self_Reported sections n r none e = inr (no_section sections n e, Memᴰ.head refl)
  self_Reported sections zero r (some hit) e = absurd (ground (arith, e))
  self_Reported sections (suc n) r (some hit) e = inl (n, hit, refl, e, Memᴰ.head refl)

  one-Sorted :
      (sections : List Hit) (n k : ℕ) (ns : List ℕ) (r : List Citation × List String)
      (o : Option Hit)
      → section_at characters sections n ≡ o
      → Sorted sections k ns r
      → Sorted sections (suc k) (n ∷ ns) (sort_one characters n o r)
  unfolding sort_one ref_of
  one-Sorted sections n k ns r none e (v, i, all, l) = (
    v,
    ((n, refl, no_section sections n e), i),
    (
      self_Reported sections n r none e,
      All-map (Reported sections r.0 r.1) _ ns (λ m. one_Reported sections n m r none) all,
    ),
    omega (arith, l),
  )
  one-Sorted sections n k ns r (some hit) e (v, i, all, l) = (
    (valid sections n hit e, v),
    i,
    (
      self_Reported sections n r (some hit) e,
      All-map (Reported sections r.0 r.1) _ ns (λ m. one_Reported sections n m r (some hit)) all,
    ),
    omega (arith, l),
  )

  sorted :
      (sections : List Hit) (ns : List ℕ)
      → Sorted sections (length ns) ns (sort_citations characters sections ns)
  unfolding sort_citations
  sorted sections [] = (tt, tt, tt, refl)
  sorted sections (n ∷ ns) =
      one-Sorted sections n (length ns) ns (sort_citations characters sections ns) _ refl
        (sorted sections ns)

  -- What holds of a number and of the others in a list holds of all.
  All-others :
      (P : ℕ → Type 0) (n : ℕ) (ns : List ℕ) → P n → All P (keep (λ m. not (m == n)) ns) → All P ns
  All-others P n [] p h = tt
  All-others P n (m ∷ ns) p h = elim (Bool-cases (m == n)) [
    | inl e ↦
        let same : n ≡ m = ground (arith, e) in (subst P same p, All-others P n ns p (rw e at h))
    | inr e ↦ let both = rw e at h in (both.0, All-others P n ns p both.1)
  ]

  All-once : (P : ℕ → Type 0) (ns : List ℕ) → All P (once characters ns) → All P ns
  unfolding once
  All-once P [] h = tt
  All-once P (n ∷ ns) h = (h.0, All-once P ns (All-others P n (once characters ns) h.0 h.1))

  abbrev pub Distinct : List ℕ → Type 0
  Distinct [] = Unit
  Distinct (n ∷ ns) = All (λ m. m ≢ n) ns × Distinct ns

  Distinct-keep : (p : ℕ → Bool) (ns : List ℕ) → Distinct ns → Distinct (keep p ns)
  Distinct-keep p [] d = tt
  Distinct-keep p (n ∷ ns) d = elim (Bool-cases (p n)) [
    | inl e ↦ rw e (All-keep_of_All (λ m. m ≢ n) p ns d.0, Distinct-keep p ns d.1)
    | inr e ↦ rw e (Distinct-keep p ns d.1)
  ]

  once-Distinct : (ns : List ℕ) → Distinct (once characters ns)
  unfolding once
  once-Distinct [] = tt
  once-Distinct (n ∷ ns) = (
    All-map _ _ (keep (λ m. not (m == n)) (once characters ns)) (λ m h. ground (arith, h))
        (All-keep (λ m. not (m == n)) (once characters ns)),
    Distinct-keep (λ m. not (m == n)) (once characters ns) (once-Distinct ns),
  )

  -- Each section cited is one of the context's, under its own number and with its own runbook, title
  -- and heading; each number reported as invented is 0 or past the last section; every number that
  -- the answer mentions is reported under itself, with the section that has it or as invented; and
  -- each is reported once, however often the answer mentions it.
  pub citations_sound :
      (answer : String) (sections : List Hit)
      → All (Valid sections) (citations characters answer sections).0
        × All (Invented sections) (citations characters answer sections).1
        × All
            (Reported sections
              (citations characters answer sections).0
              (citations characters answer sections).1)
            (find_numbers characters false answer)
        × (length (citations characters answer sections).0
              + length (citations characters answer sections).1
            ≡ length (once characters (find_numbers characters false answer)))
        × Distinct (once characters (find_numbers characters false answer))
  unfolding citations
  citations_sound answer sections =
      let ns = once characters (find_numbers characters false answer) in
      let (v, i, all, l) = sorted sections ns in
      (
        v,
        i,
        All-once _ (find_numbers characters false answer) all,
        l,
        once-Distinct (find_numbers characters false answer),
      )
