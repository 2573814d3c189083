-- ===== src/Raft/Log/Rounds.antt =====
-- raft/RaftLog.cpp: what the rounds of the loop of AppendAll make of the entries.
use mathlib.Core.Path.{ap₂}
use distributed_key_value_st.Base.{
  take_all, ℕ, zero, suc, ◌+◌, ◌^◌, ◌≤◌, ◌<◌, ◌≡◌, refl, sym, ◌∙◌, ap, List, [], ◌∷◌, ◌++◌, some,
  arith, length, get_elem?, take, ltb, ◌==◌, if◌then◌else◌, length-append, length-take,
  get_elem?-take, Bool-cases, inl, inr, max, ==_iff, ltb→lt,
}
use distributed_key_value_st.Raft.Rpc.{LogEntry}
use distributed_key_value_st.Raft.Log.{RaftLog, offset, term_at, append_one, append_all}
use distributed_key_value_st.Raft.Log.Bounds.{Contiguous, Contiguous-append, Contiguous-take}

-- What a round of AppendAll makes of the entries, by the entry's offset `d`.
abbrev pub put_at : ℕ → LogEntry → List LogEntry → List LogEntry
put_at d e es =
    if ltb d (length es)
    then (if term_at es d == e.term then es else take d es ++ e ∷ [])
    else es ++ e ∷ []

term_at-append :
    (es : List LogEntry) (e : LogEntry) (k : ℕ) → length es ≡ k → term_at (es ++ e ∷ []) k ≡ e.term
unfolding term_at
term_at-append [] e zero h = refl
term_at-append [] e (suc k) h = absurd (omega arith)
term_at-append (x ∷ es) e zero h = absurd (omega arith)
term_at-append (x ∷ es) e (suc k) h = term_at-append es e k (omega arith)

take-put_length :
    (es : List LogEntry) (e : LogEntry) (d : ℕ) → d ≤ length es → take d (es ++ e ∷ []) ≡ take d es
take-put_length es e zero h = refl
take-put_length [] e (suc d) h = absurd (omega arith)
take-put_length (x ∷ es) e (suc d) h = ap (◌∷◌ x) (take-put_length es e d (omega arith))

pub take-take : (es : List LogEntry) (d : ℕ) → take d (take d es) ≡ take d es
take-take es zero = refl
take-take [] (suc d) = refl
take-take (x ∷ es) (suc d) = ap (◌∷◌ x) (take-take es d)

-- What holds of the entries `r` that a round at offset `d` makes of `es`.
pub record Put (n d : ℕ) (e : LogEntry) (es r : List LogEntry) : Type 0 where
  pub kept : take d r ≡ take d es
  pub here : term_at r d ≡ e.term
  pub longer : d < length r
  pub grows : length r ≤ max (length es) (d + 1)
  pub contiguous : Contiguous n r

pub put_at-Put :
    (n d : ℕ) (e : LogEntry) (es : List LogEntry)
    → d ≤ length es
    → Contiguous n es
    → e.index ≡ n + d
    → Put n d e es (put_at d e es)
put_at-Put n d e es h c i = elim (Bool-cases (ltb d (length es))) [
  | inr beyond ↦
      let same : length es ≡ d = ground arith in
      rw beyond (record {
        kept = take-put_length es e d h;
        here = term_at-append es e d same;
        longer = omega (arith, length-append es (e ∷ []));
        grows = omega (arith, length-append es (e ∷ []));
        contiguous = Contiguous-append n es e c (omega arith);
      })
  | inl inside ↦ elim (Bool-cases (term_at es d == e.term)) [
    | inl agrees ↦ rw inside (
        rw agrees (record {
          kept = refl;
          here = (==_iff (term_at es d) e.term).0 agrees;
          longer = ltb→lt d (length es) inside;
          grows = omega arith;
          contiguous = c;
        }))
    | inr conflicts ↦
        let short : length (take d es) ≡ d = omega (arith, length-take d es) in
        let longer = length-append (take d es) (e ∷ []) in
        rw inside (
          rw conflicts (record {
            kept = take-put_length (take d es) e d (omega arith) ∙ take-take es d;
            here = term_at-append (take d es) e d short;
            longer = omega arith;
            grows = omega arith;
            contiguous = Contiguous-append n (take d es) e (Contiguous-take n d es c) (omega arith);
          }))
  ]
]

abbrev pub put_all : ℕ → List LogEntry → List LogEntry → List LogEntry
put_all d [] es = es
put_all d (e ∷ new) es = put_all (suc d) new (put_at d e es)

-- What holds of the entries `r` that all rounds from offset `d` on make of `es`.
pub record Puts (n d : ℕ) (new es r : List LogEntry) : Type 0 where
  pub kept : take d r ≡ take d es
  pub terms : (k : ℕ) (e : LogEntry) → get_elem? new k ≡ some e → term_at r (d + k) ≡ e.term
  pub longer : d + length new ≤ length r
  pub grows : length r ≤ max (length es) (d + length new)
  pub contiguous : Contiguous n r

pub take-suc {ℓ} :
    {A : Type ℓ} (d : ℕ) (xs ys : List A)
    → take (suc d) xs ≡ take (suc d) ys
    → take d xs ≡ take d ys
take-suc {A = A} d xs ys h = sym (take_less d xs) ∙ ap (take d) h ∙ take_less d ys
  where
    take_less : (d : ℕ) (zs : List A) → take d (take (suc d) zs) ≡ take d zs
    take_less zero zs = refl
    take_less (suc d) [] = refl
    take_less (suc d) (z ∷ zs) = ap (◌∷◌ z) (take_less d zs)

-- Lists that agree before `k` have the same term before `k`.
pub term_at-take :
    (d k : ℕ) (xs ys : List LogEntry) → take d xs ≡ take d ys → k < d → term_at xs k ≡ term_at ys k
unfolding term_at
term_at-take d k xs ys h lt =
    rw (← get_elem?-take d k xs lt, ← get_elem?-take d k ys lt, h, term_at) refl

pub put_all-Puts :
    (n d : ℕ) (new es : List LogEntry)
    → d ≤ length es
    → Contiguous n es
    → Contiguous (n + d) new
    → Puts n d new es (put_all d new es)
put_all-Puts n d [] es h c cn = record {
  kept = refl;
  terms = λ k e q. cc;
  longer = omega arith;
  grows = omega arith;
  contiguous = c;
}
put_all-Puts n d (e ∷ new) es h c cn =
    let one = put_at-Put n d e es h c cn.0 in
    let es' = put_at d e es in
    let next : n + suc d ≡ suc (n + d) = omega arith in
    let rest =
      put_all-Puts n (suc d) new es' (omega (arith, one.longer)) one.contiguous (rw next cn.1) in
    let r = put_all (suc d) new es' in
    record {
      kept = take-suc d r es' rest.kept ∙ one.kept;
      terms = terms_of n d e new es es' r one rest;
      longer = omega (arith, rest.longer);
      grows = omega (arith, rest.grows, one.grows, h);
      contiguous = rest.contiguous;
    }
  where
    terms_of :
        (n d : ℕ) (e : LogEntry) (new es es' r : List LogEntry)
        → Put n d e es es'
        → Puts n (suc d) new es' r
        → (k : ℕ) (x : LogEntry) → get_elem? (e ∷ new) k ≡ some x
        → term_at r (d + k) ≡ x.term
    terms_of n d e new es es' r one rest zero x q =
        let same : d + 0 ≡ d = omega arith in
        rw same (term_at-take (suc d) d r es' rest.kept (omega arith) ∙ one.here ∙ ground arith)
    terms_of n d e new es es' r one rest (suc k) x q =
        let same : d + suc k ≡ suc d + k = omega arith in rw same (rest.terms k x q)

pub entries-append_all :
    (d : ℕ) (new : List LogEntry) (l : RaftLog)
    → Contiguous (l.snapshot_index + d) new
    → l.snapshot_index + d + length new ≤ 2 ^ 64
    → ((append_all new l).entries ≡ put_all d new l.entries)
      × ((append_all new l).snapshot_index ≡ l.snapshot_index)
      × ((append_all new l).snapshot_term ≡ l.snapshot_term)
unfolding append_all
entries-append_all d [] l c k = (refl, refl, refl)
entries-append_all d (e ∷ new) l c k =
    let l' = append_one e l in
    let off : offset l e.index ≡ d = offset_at d l e c.0 (omega arith) in
    let next : l.snapshot_index + suc d ≡ suc (l.snapshot_index + d) = omega arith in
    let rest = entries-append_all (suc d) new l' (rw next c.1) (omega arith) in
    (rest.0 ∙ ap (put_all (suc d) new) (entries_of d l e off), rest.1, rest.2)
  where
    offset_at :
        (d : ℕ) (l : RaftLog) (e : LogEntry)
        → e.index ≡ l.snapshot_index + d
        → l.snapshot_index + d < 2 ^ 64
        → offset l e.index ≡ d
    offset_at d l e i k = omega arith

    entries_of :
        (d : ℕ) (l : RaftLog) (e : LogEntry)
        → offset l e.index ≡ d
        → (append_one e l).entries ≡ put_at d e l.entries
    entries_of d l e off = ap (λ (x : ℕ). put_at x e l.entries) off

-- Every new entry that falls within `es` has the term that stands there.
abbrev pub Agrees : ℕ → List LogEntry → List LogEntry → Type 0
Agrees d new es =
    (k : ℕ) (e : LogEntry)
    → get_elem? new k ≡ some e
    → d + k < length es
    → term_at es (d + k) ≡ e.term

take_prefix {ℓ} :
    {A : Type ℓ} (xs ys zs : List A)
    → take (length (xs ++ ys)) zs ≡ xs ++ ys
    → take (length xs) zs ≡ xs
take_prefix [] ys zs h = refl
take_prefix (x ∷ xs) ys [] h = cc
take_prefix (x ∷ xs) ys (z ∷ zs) h = ap₂ ◌∷◌ (ground arith) (take_prefix xs ys zs (ground arith))

pub get_elem?-of_take {ℓ} :
    {A : Type ℓ} (d k : ℕ) (xs ys : List A)
    → take d xs ≡ take d ys
    → k < d
    → get_elem? xs k ≡ get_elem? ys k
get_elem?-of_take d k xs ys h lt =
    sym (get_elem?-take d k xs lt) ∙ ap (λ zs. get_elem? zs k) h ∙ get_elem?-take d k ys lt

-- Then the rounds only add to the end.
pub put_all_keeps :
    (d : ℕ) (new es : List LogEntry)
    → d ≤ length es
    → Agrees d new es
    → take (length es) (put_all d new es) ≡ es
put_all_keeps d [] es h a = take_all es
put_all_keeps d (e ∷ new) es h a = elim (Bool-cases (ltb d (length es))) [
  | inr beyond ↦
      let longer = length-append es (e ∷ []) in
      let same : length es ≡ d = ground arith in
      rw beyond (
        take_prefix es (e ∷ []) (put_all (suc d) new (es ++ e ∷ [])) (
          put_all_keeps (suc d) new (es ++ e ∷ []) (omega arith)
            (λ k x q lt. absurd (omega arith))))
  | inl inside ↦
      let first_agrees : term_at es d ≡ e.term =
        let at_d : d + 0 ≡ d = omega arith in
        let below : d < length es = ltb→lt d (length es) inside in
        ap (term_at es) (sym at_d) ∙ a 0 e refl (rw at_d below) in
      rw inside (
        rw ((==_iff (term_at es d) e.term).1 first_agrees) (
          put_all_keeps (suc d) new es (ltb→lt d (length es) inside) (λ k x q lt.
            let at_k : d + suc k ≡ suc d + k = omega arith in
            ap (term_at es) (sym at_k) ∙ a (suc k) x q (rw at_k lt))))
]
