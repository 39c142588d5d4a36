-- ===== src/DuoAccess/ApiCache/Answers.antt =====
-- What is asked for and what is answered.
use khulnasoft_lsp.Base.{
  ℕ, Bool, true, false, not, List, [], ◌∷◌, Option, none, some, ◌&&◌, if◌then◌else◌, filter,
  contains, number_key, ◌===◌, ===_iff, ◌≡◌, refl, sym, ap, ◌∙◌, Bool-cases, inl, inr, Option-cases,
}
use khulnasoft_lsp.Base.JsMap
use khulnasoft_lsp.Base.JsMap.{get-set, set-Distinct}
use khulnasoft_lsp.DuoAccess.ApiCache.{
  Statuses, or_false, missing_from_cache, Edge, check_duo_features_enabled, add_edge, reduce_edges,
  merge, answers_from, fetch_missing, get_enabled_for_projects,
}

and_false : (b : Bool) → (b && false) ≡ false
and_false true = refl
and_false false = refl

contains-filter :
    (p : ℕ → Bool) (ids : List ℕ) (id : ℕ) → contains (filter p ids) id ≡ (contains ids id && p id)
unfolding contains filter
contains-filter p [] id = refl
contains-filter p (x ∷ ids) id = elim (Bool-cases (x === id)) [
  | inl same ↦
      let e : p x ≡ p id = ap p ((===_iff x id).0 same) in
      elim (Bool-cases (p x)) [
        | inl t ↦ rw (t, same) (sym t ∙ e)
        | inr f ↦
            let e' : p id ≡ false = sym e ∙ f in
            rw (f, same, contains-filter p ids id, e') (and_false (contains ids id))
      ]
  | inr other ↦ elim (Bool-cases (p x)) [
    | inl t ↦ rw (t, other, contains-filter p ids id)
    | inr f ↦ rw (f, other, contains-filter p ids id)
  ]
]

-- The last edge of a project in a response.
abbrev told_by : ℕ → Bool → Option ℕ → Option Bool → Option Bool
told_by id enabled none o = o
told_by id enabled (some i) o = if i === id then some enabled else o

abbrev told_in : ℕ → List Edge → Option Bool → Option Bool
told_in id [] o = o
told_in id (edge ∷ edges) o = told_in id edges (told_by id edge.duo_features_enabled edge.id o)

-- What the API says of a project, if it is asked and does not throw.
abbrev told_of : ℕ → Option (List Edge) → Option Bool
told_of id none = none
told_of id (some edges) = told_in id edges none

abbrev pub told : (List ℕ → Option (List Edge)) → List ℕ → ℕ → Option Bool
told fetch [] id = none
told fetch (i ∷ ids) id = told_of id (fetch (i ∷ ids))

abbrev pub latest : Option Bool → Option Bool → Option Bool
latest none old = old
latest (some b) old = some b

get-add_edge :
    (id : ℕ) (i : Option ℕ) (b : Bool) (acc : Statuses)
    → JsMap.get (add_edge i b acc) id ≡ told_by id b i (JsMap.get acc id)
get-add_edge id none b acc = refl
get-add_edge id (some i) b acc = get-set acc i id b

get-reduce_edges :
    (id : ℕ) (acc : Statuses) (edges : List Edge)
    → JsMap.get (reduce_edges acc edges) id ≡ told_in id edges (JsMap.get acc id)
unfolding reduce_edges
get-reduce_edges id acc [] = refl
get-reduce_edges id acc (edge ∷ edges) =
    get-reduce_edges id (add_edge edge.id edge.duo_features_enabled acc) edges
    ∙ ap (told_in id edges) (get-add_edge id edge.id edge.duo_features_enabled acc)

add_edge-Distinct :
    (i : Option ℕ) (b : Bool) (acc : Statuses)
    → JsMap.Distinct acc
    → JsMap.Distinct (add_edge i b acc)
add_edge-Distinct none b acc d = d
add_edge-Distinct (some i) b acc d = set-Distinct acc i b d

reduce_edges-Distinct :
    (edges : List Edge) (acc : Statuses)
    → JsMap.Distinct acc
    → JsMap.Distinct (reduce_edges acc edges)
unfolding reduce_edges
reduce_edges-Distinct [] acc d = d
reduce_edges-Distinct (edge ∷ edges) acc d =
    reduce_edges-Distinct edges (add_edge edge.id edge.duo_features_enabled acc)
      (add_edge-Distinct edge.id edge.duo_features_enabled acc d)

get-merge :
    (id : ℕ) (m statuses : Statuses)
    → JsMap.Distinct statuses
    → JsMap.get (merge m statuses) id ≡ latest (JsMap.get statuses id) (JsMap.get m id)
unfolding merge JsMap.get JsMap.has
get-merge id m [] d = refl
get-merge id m ((k, b) ∷ statuses) (fresh, d) = elim (Bool-cases (k === id)) [
  | inl same ↦
      let e : k ≡ id = (===_iff k id).0 same in
      elim (Option-cases (JsMap.get statuses id)) [
        | inl n ↦ rw (get-merge id (JsMap.set m k b) statuses d, n, get-set m k id b, same)
        | inr (v, s) ↦ cc (rw (e, s) at fresh)
      ]
  | inr other ↦ rw (get-merge id (JsMap.set m k b) statuses d, get-set m k id b, other)
]

get-answers_from :
    (id : ℕ) (m acc : Statuses) (ids : List ℕ)
    → JsMap.get (answers_from m acc ids) id
      ≡ (if contains ids id then some (or_false (JsMap.get m id)) else JsMap.get acc id)
unfolding answers_from contains
get-answers_from id m acc [] = refl
get-answers_from id m acc (i ∷ ids) =
    let h = get-answers_from id m (JsMap.set acc i (or_false (JsMap.get m i))) ids in
    let g = get-set acc i id (or_false (JsMap.get m i)) in
    elim (Bool-cases (contains ids id)) [
      | inl c ↦ elim (Bool-cases (i === id)) [
        | inl same ↦ rw (h, c, same)
        | inr other ↦ rw (h, c, other)
      ]
      | inr c ↦ elim (Bool-cases (i === id)) [
        | inl same ↦
            rw (h, c, g, same) (ap (λ x. some (or_false (JsMap.get m x))) ((===_iff i id).0 same))
        | inr other ↦ rw (h, c, g, other)
      ]
    ]

check-Distinct : (edges : Option (List Edge)) → JsMap.Distinct (check_duo_features_enabled edges)
unfolding check_duo_features_enabled
check-Distinct none = tt
check-Distinct (some edges) = reduce_edges-Distinct edges [] tt

get-check :
    (id : ℕ) (edges : Option (List Edge))
    → JsMap.get (check_duo_features_enabled edges) id ≡ told_of id edges
unfolding check_duo_features_enabled JsMap.get
get-check id none = refl
get-check id (some edges) = get-reduce_edges id [] edges

get-fetch_missing :
    (uniq : List ℕ → List ℕ) (fetch : List ℕ → Option (List Edge)) (id : ℕ) (ids : List ℕ)
    (m : Statuses)
    → JsMap.get (fetch_missing uniq fetch ids m) id ≡ latest (told fetch ids id) (JsMap.get m id)
get-fetch_missing uniq fetch id [] m = refl
get-fetch_missing uniq fetch id (i ∷ ids) m =
    get-merge id m _ (check-Distinct (fetch (i ∷ ids)))
    ∙ ap (λ o. latest o (JsMap.get m id)) (get-check id (fetch (i ∷ ids)))

-- With a `uniq` that keeps which ids there are: the API is asked for the projects that are not known to be enabled,
-- and not at all if there are none. A project that was asked for is answered as the API last told of it, and if the
-- API told nothing, or failed, as the cache knew it, or else as disabled; the cache then knows the same.
pub get_enabled_for_projects-told :
    (uniq : List ℕ → List ℕ) (fetch : List ℕ → Option (List Edge)) (ids : List ℕ) (m : Statuses)
    (id : ℕ)
    → ((xs : List ℕ) (x : ℕ) → contains (uniq xs) x ≡ contains xs x)
    → (contains (missing_from_cache uniq ids m) id
        ≡ (contains ids id && not (or_false (JsMap.get m id))))
      × (JsMap.get ((get_enabled_for_projects uniq fetch ids m).0) id ≡ (
          if contains ids id
          then some
              (or_false (latest (told fetch (missing_from_cache uniq ids m) id) (JsMap.get m id)))
          else none))
      × (JsMap.get ((get_enabled_for_projects uniq fetch ids m).1) id
          ≡ latest (told fetch (missing_from_cache uniq ids m) id) (JsMap.get m id))
unfolding get_enabled_for_projects missing_from_cache JsMap.get
get_enabled_for_projects-told uniq fetch ids m id law =
    let asked = missing_from_cache uniq ids m in
    (
      law _ id ∙ contains-filter _ ids id,
      rw (
        get-answers_from id (fetch_missing uniq fetch asked m) [] ids,
        get-fetch_missing uniq fetch id asked m,
      ),
      get-fetch_missing uniq fetch id asked m,
    )
