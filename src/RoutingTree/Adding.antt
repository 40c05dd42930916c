-- ===== src/RoutingTree/Adding.antt =====
-- rtRoutingTree_AddTopicRoute as an update of the map from paths to routes.
use rbus.Base.{
  ℕ, ◌≡◌, refl, Bool, true, false, Option, List, [], ◌∷◌, ◌++◌, if◌then◌else◌, Bool-cases, inl, inr,
}
use rbus.Base.Names.{Name, same, eq_of_same, same_refl}
use rbus.RoutingTree.{
  Topics, nil, topic, TopicPath, Match, exact, instance_of, conflict, other, match_child, passes,
  resolved, Created, after_match, create_topics, assign,
}
use rbus.RoutingTree.Operations.{same_path}
use rbus.RoutingTree.Lookup.{here_or_below, routes_at, has, starts_with, resolved-starts_with}

pub after_match-elim :
    (P : Created → Type 0) (m : Match) (level : Topics) (here over : Created)
    → P (record { level = level; created = false; failed = true })
    → (passes m ≡ false → P here)
    → (passes m ≡ true → P over)
    → P (after_match m level here over)
after_match-elim P conflict level here over h k l = h
after_match-elim P exact level here over h k l = k refl
after_match-elim P instance_of level here over h k l = k refl
after_match-elim P other level here over h k l = l refl

here_or_below-nil : (q : TopicPath) → here_or_below q [] [] ≡ []
here_or_below-nil [] = refl
here_or_below-nil (m ∷ ms) = refl

pub routes_at-create_topics :
    (level : Topics) (ts : List Name) (q : TopicPath)
    → routes_at (create_topics level ts).level q ≡ routes_at level q
unfolding create_topics routes_at
routes_at-create_topics nil [] q = refl
routes_at-create_topics (topic n table routes routes2 children next) [] q = refl
routes_at-create_topics nil (t ∷ ts) [] = refl
routes_at-create_topics nil (t ∷ ts) (m ∷ ms) = elim (Bool-cases (same t m)) [
  | inl e ↦ rw (e, routes_at-create_topics nil ts ms) (here_or_below-nil ms)
  | inr e ↦ rw e refl
]
routes_at-create_topics (topic n table routes routes2 children next) (t ∷ ts) [] =
    after_match-elim (λ c. routes_at c.level [] ≡ []) (match_child n t) _ _ _ refl (λ e. refl)
      (λ e. refl)
routes_at-create_topics (topic n table routes routes2 children next) (t ∷ ts) (m ∷ ms) =
    let ih = routes_at-create_topics children ts ms in
    let ih' = routes_at-create_topics next (t ∷ ts) (m ∷ ms) in
    after_match-elim
      (λ c.
        routes_at c.level (m ∷ ms)
        ≡ routes_at (topic n table routes routes2 children next) (m ∷ ms))
      (match_child n t) _ _ _ refl (λ e. rw ih refl) (λ e. rw ih' refl)

pub match_child_refl : (t : Name) → match_child t t ≡ exact
unfolding match_child
match_child_refl t = rw (same_refl t) refl

-- A creating walk that is not stopped leaves a topic for the tokens.
pub has-create_topics :
    (level : Topics) (ts : List Name)
    → (create_topics level ts).failed ≡ false
    → has (create_topics level ts).level ts ≡ true
unfolding create_topics has
has-create_topics nil [] h = refl
has-create_topics (topic n table routes routes2 children next) [] h = refl
has-create_topics nil (t ∷ ts) h = rw (match_child_refl t) (has-create_topics nil ts h)
has-create_topics (topic n table routes routes2 children next) (t ∷ ts) h =
    after_match-elim (λ c. c.failed ≡ false → has c.level (t ∷ ts) ≡ true) (match_child n t) _ _ _
      (λ e. cc) (λ e e'. rw e (has-create_topics children ts e'))
      (λ e e'. rw e (has-create_topics next (t ∷ ts) e')) h

same_path-starts_with :
    (n : Name) (p ms : TopicPath) (m : Name)
    → starts_with n p ≡ false
    → same n m ≡ true
    → same_path p (m ∷ ms) ≡ false
unfolding same_path
same_path-starts_with n [] ms m h k = refl
same_path-starts_with n (u ∷ us) ms m h k = elim (Bool-cases (same u m)) [
  | inl e ↦ let a = eq_of_same u m e in let b = eq_of_same n m k in cc
  | inr e ↦ rw e refl
]

pub assign-behind :
    (n : Name) (table : Bool) (routes routes2 : Option (List ℕ)) (children next : Topics) (t : Name)
    (ts : List Name) (r : ℕ)
    → passes (match_child n t) ≡ true
    → assign (topic n table routes routes2 children next) (t ∷ ts) r
      ≡ topic n table routes routes2 children (assign next (t ∷ ts) r)
unfolding assign
assign-behind n table routes routes2 children next t [] r e = rw e refl
assign-behind n table routes routes2 children next t (u ∷ us) r e = rw e refl

pub same_path-resolved :
    (level : Topics) (t : Name) (ts : List Name)
    → has level (t ∷ ts) ≡ true
    → same_path (resolved level (t ∷ ts)) [] ≡ false
unfolding has resolved same_path
same_path-resolved nil t ts h = cc
same_path-resolved (topic n table routes routes2 children next) t ts h =
    elim (Bool-cases (passes (match_child n t))) [
      | inl e ↦ let h' = rw e at h in rw e (same_path-resolved next t ts h')
      | inr e ↦ rw e refl
    ]

-- The path p gets the route r at the end; read at the path q.
abbrev pub Appends : Topics → Topics → TopicPath → ℕ → TopicPath → Type 0
Appends before after p r q =
    routes_at after q ≡ (if same_path p q then routes_at before q ++ r ∷ [] else routes_at before q)

-- The path that the tokens resolve to gets the route at the end, and no other path changes.
pub routes_at-assign :
    (level : Topics) (t : Name) (ts : List Name) (r : ℕ) (m : Name) (ms : List Name)
    → has level (t ∷ ts) ≡ true
    → Appends level (assign level (t ∷ ts) r) (resolved level (t ∷ ts)) r (m ∷ ms)
unfolding routes_at has assign resolved same_path
routes_at-assign nil t ts r m ms h = cc
routes_at-assign (topic n table routes routes2 children next) t ts r m ms h =
    elim (Bool-cases (passes (match_child n t))) [
      | inl e ↦
          let ih = routes_at-assign next t ts r m ms (rw e at h) in
          let p =
            same_path-starts_with n (resolved next (t ∷ ts)) ms m
              (resolved-starts_with n t next ts e) in
          rw (e, assign-behind n table routes routes2 children next t ts r e)
            (elim (Bool-cases (same n m)) [ inl s ↦ rw (s, p s) refl | inr s ↦ rw s ih ])
      | inr e ↦ at_topic ts ms e (rw e at h) (routes_at-assign children)
    ]
  where
    at_topic :
        (ts : List Name) (ms : List Name)
        → passes (match_child n t) ≡ false
        → has children ts ≡ true
        → ((u : Name) (us : List Name) (r : ℕ) (m : Name) (ms : List Name)
            → has children (u ∷ us) ≡ true
            → Appends children (assign children (u ∷ us) r) (resolved children (u ∷ us)) r (m ∷ ms))
        → Appends
            (topic n table routes routes2 children next)
            (assign (topic n table routes routes2 children next) (t ∷ ts) r)
            (resolved (topic n table routes routes2 children next) (t ∷ ts))
            r
            (m ∷ ms)
    at_topic [] [] e h ih =
        rw e (elim (Bool-cases (same n m)) [ inl s ↦ rw s refl | inr s ↦ rw s refl ])
    at_topic [] (k ∷ ks) e h ih =
        rw e (elim (Bool-cases (same n m)) [ inl s ↦ rw s refl | inr s ↦ rw s refl ])
    at_topic (u ∷ us) [] e h ih =
        rw (e, same_path-resolved children u us h)
          (elim (Bool-cases (same n m)) [ inl s ↦ rw s refl | inr s ↦ rw s refl ])
    at_topic (u ∷ us) (k ∷ ks) e h ih =
        rw e (elim (Bool-cases (same n m)) [ inl s ↦ rw s (ih u us r k ks h) | inr s ↦ rw s refl ])

-- The creating walk and the new routes change no name.
pub resolved-assign :
    (level : Topics) (ts : List Name) (r : ℕ) (us : List Name)
    → resolved (assign level ts r) us ≡ resolved level us
unfolding assign resolved
resolved-assign level [] r us = refl
resolved-assign nil (t ∷ ts) r us = refl
resolved-assign (topic n table routes routes2 children next) (t ∷ []) r [] = refl
resolved-assign (topic n table routes routes2 children next) (t ∷ []) r (u ∷ us) =
    elim (Bool-cases (passes (match_child n t))) [
      | inl e ↦ rw (e, resolved-assign next (t ∷ []) r (u ∷ us)) refl
      | inr e ↦ rw e refl
    ]
resolved-assign (topic n table routes routes2 children next) (t ∷ t' ∷ ts) r [] = refl
resolved-assign (topic n table routes routes2 children next) (t ∷ t' ∷ ts) r (u ∷ us) =
    elim (Bool-cases (passes (match_child n t))) [
      | inl e ↦ rw (e, resolved-assign next (t ∷ t' ∷ ts) r (u ∷ us)) refl
      | inr e ↦ rw (e, resolved-assign children (t' ∷ ts) r us) refl
    ]

pub has-assign :
    (level : Topics) (ts : List Name) (r : ℕ) (us : List Name)
    → has (assign level ts r) us ≡ has level us
unfolding assign has
has-assign level [] r us = refl
has-assign nil (t ∷ ts) r us = refl
has-assign (topic n table routes routes2 children next) (t ∷ []) r [] = refl
has-assign (topic n table routes routes2 children next) (t ∷ []) r (u ∷ us) =
    elim (Bool-cases (passes (match_child n t))) [
      | inl e ↦ rw (e, has-assign next (t ∷ []) r (u ∷ us)) refl
      | inr e ↦ rw e refl
    ]
has-assign (topic n table routes routes2 children next) (t ∷ t' ∷ ts) r [] = refl
has-assign (topic n table routes routes2 children next) (t ∷ t' ∷ ts) r (u ∷ us) =
    elim (Bool-cases (passes (match_child n t))) [
      | inl e ↦ rw (e, has-assign next (t ∷ t' ∷ ts) r (u ∷ us)) refl
      | inr e ↦ rw (e, has-assign children (t' ∷ ts) r us) refl
    ]
