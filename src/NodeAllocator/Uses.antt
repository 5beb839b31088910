-- ===== src/NodeAllocator/Uses.antt =====
-- An allocator in use by many threads: which nodes are live after calls of `get` and `release`.
use rock_coro.Prelude.{
  ℕ, ◌<◌, ◌≡◌, ◌≢◌, ◌↔◌, refl, sym, ◌∙◌, subst, true, arith, inl, inr, ◌⊎◌, List, [], ◌∷◌, ◌++◌,
  Option, none, some,
}
use rock_coro.TaggedPtr.{get_ptr}
use rock_coro.NodeAllocator.{cache_count, NodeAllocator, new, get, release, destroy}
use rock_coro.NodeAllocator.Chain.{Has, Distinct}
use rock_coro.NodeAllocator.Drop.{null_word}
use rock_coro.NodeAllocator.Valid.{IsValid, InUse, MayRun}
use rock_coro.NodeAllocator.Get.{IsFresh, Got, get_lem}
use rock_coro.NodeAllocator.Release.{Released, release_lem}
use rock_coro.NodeAllocator.Destroy.{destroy_lem}

-- A live node is released whenever, by any thread, and just once; its word may have any tag.
pub data Uses : NodeAllocator → List ℕ → Type 0 where
  made : Uses new []
  got :
      {s s' : NodeAllocator} {live : List ℕ} (t fresh node : ℕ)
      → Uses s live
      → MayRun t s
      → IsFresh fresh s
      → get t fresh s ≡ some (s', node)
      → Uses s' (get_ptr node ∷ live)
  let_go :
      {s s' : NodeAllocator} (t node : ℕ) (before after : List ℕ)
      → Uses s (before ++ (get_ptr node ∷ after))
      → MayRun t s
      → release t node s ≡ some s'
      → Uses s' (before ++ after)

record Agrees (s : NodeAllocator) (live : List ℕ) : Type 0 where
  lists : ℕ → List ℕ
  valid : IsValid s lists
  distinct : Distinct live
  in_use : (a : ℕ) → Has a live → InUse s lists a
  listed : (a : ℕ) → InUse s lists a → Has a live
  not_null : (a : ℕ) → Has a live → a ≢ 0

has_middle :
    (b a : ℕ) (before after : List ℕ) → Has b (before ++ after) → Has b (before ++ (a ∷ after))
has_middle b a [] after h = inr h
has_middle b a (x ∷ before) after (inl e) = inl e
has_middle b a (x ∷ before) after (inr h) = inr (has_middle b a before after h)

middle_has : (a : ℕ) (before after : List ℕ) → Has a (before ++ (a ∷ after))
middle_has a [] after = inl refl
middle_has a (x ∷ before) after = inr (middle_has a before after)

split_middle :
    (b a : ℕ) (before after : List ℕ)
    → Has b (before ++ (a ∷ after))
    → (a ≡ b) ⊎ Has b (before ++ after)
split_middle b a [] after h = h
split_middle b a (x ∷ before) after (inl e) = inr (inl e)
split_middle b a (x ∷ before) after (inr h) = elim (split_middle b a before after h) [
  | inl e ↦ inl e
  | inr m ↦ inr (inr m)
]

middle-Distinct :
    (a : ℕ) (before after : List ℕ)
    → Distinct (before ++ (a ∷ after))
    → ¬ Has a (before ++ after) × Distinct (before ++ after)
middle-Distinct a [] after d = d
middle-Distinct a (x ∷ before) after (out, d) =
    let (not_a, rest) = middle-Distinct a before after d in
    (
      elim [
        | inl e ↦
            out (subst (λ b. Has b (before ++ (a ∷ after))) (sym e) (middle_has a before after))
        | inr h ↦ not_a h
      ],
      (λ h. out (has_middle x a before after h), rest),
    )

new-Agrees : Agrees new []
unfolding new
new-Agrees = record {
  lists = λ i. [];
  valid = record {
    held = λ i. record {
      chain = null_word;
      distinct = tt;
      in_memory = λ a h. absurd h;
      counted = refl;
    };
    apart = λ i j a p q. absurd p;
    bounded = λ i. omega arith;
    registered = λ t i e. absurd (cc e);
    one_each = λ t u i e f. absurd (cc e);
    in_bounds = omega arith;
    unused = λ i le. refl;
  };
  distinct = tt;
  in_use = λ a h. absurd h;
  listed = λ a u. absurd (cc u.0);
  not_null = λ a h. absurd h;
}

abbrev AgreesWith : List ℕ → Option (NodeAllocator × ℕ) → Type 0
AgreesWith live none = Unit {0}
AgreesWith live (some (s, node)) = Agrees s (get_ptr node ∷ live)

abbrev AgreesAfter : List ℕ → Option NodeAllocator → Type 0
AgreesAfter live none = Unit {0}
AgreesAfter live (some s) = Agrees s live

Got-Agrees :
    (s s' : NodeAllocator) (live : List ℕ) (a : Agrees s live) (lists' : ℕ → List ℕ) (node : ℕ)
    → Got s a.lists s' lists' node
    → Agrees s' (get_ptr node ∷ live)
Got-Agrees s s' live a lists' node g = record {
  lists = lists';
  valid = g.valid;
  distinct = (λ h. g.was_free (a.in_use (get_ptr node) h), a.distinct);
  in_use =
      λ b. elim [ inl e ↦ subst (InUse s' lists') e g.in_use | inr h ↦ g.others b (a.in_use b h) ];
  listed = λ b u. elim (g.no_others b u) [ inl w ↦ inr (a.listed b w) | inr e ↦ inl (sym e) ];
  not_null = λ b. elim [ inl e ↦ λ z. g.not_null (e ∙ z) | inr h ↦ a.not_null b h ];
}

Released-Agrees :
    (s s' : NodeAllocator) (node : ℕ) (before after : List ℕ)
    (a : Agrees s (before ++ (get_ptr node ∷ after))) (lists' : ℕ → List ℕ)
    → Released s a.lists s' lists' node
    → Agrees s' (before ++ after)
Released-Agrees s s' node before after a lists' r =
    let x = get_ptr node in
    let (out, distinct) = middle-Distinct x before after a.distinct in
    record {
      lists = lists';
      valid = r.valid;
      distinct = distinct;
      in_use = λ b h.
          r.others b (a.in_use b (has_middle b x before after h))
            (λ e. out (subst (λ c. Has c (before ++ after)) e h));
      listed = λ b u. elim (split_middle b x before after (a.listed b (r.no_others b u))) [
        | inl e ↦ absurd (r.not_in_use (subst (InUse s' lists') (sym e) u))
        | inr h ↦ h
      ];
      not_null = λ b h. a.not_null b (has_middle b x before after h);
    }

Uses-Agrees : {s : NodeAllocator} {live : List ℕ} → Uses s live → Agrees s live
Uses-Agrees made = new-Agrees
Uses-Agrees (got {s = s} {live = live} t fresh node u may fr e) =
    let a = Uses-Agrees u in
    let (s1, lists', node1, f, g) = get_lem t fresh s a.lists a.valid may fr in
    subst (AgreesWith live) (sym f ∙ e) (Got-Agrees s s1 live a lists' node1 g)
Uses-Agrees (let_go {s = s} t node before after u may e) =
    let a = Uses-Agrees u in
    let here = middle_has (get_ptr node) before after in
    let (s1, lists', f, r) =
      release_lem t node s a.lists a.valid may (a.not_null (get_ptr node) here)
        (a.in_use (get_ptr node) here) in
    subst (AgreesAfter (before ++ after)) (sym f ∙ e)
      (Released-Agrees s s1 node before after a lists' r)

-- After any calls of get and release by threads that have a cache or for which one is left, in
-- which new returns addresses in user space that are not allocated and each live node is released
-- once, by any thread: release of a live node, by such a thread, returns, and then every cache
-- counts fewer than 128 nodes.
pub caches_are_bounded :
    (t node : ℕ) (s : NodeAllocator) (before after : List ℕ)
    → Uses s (before ++ (get_ptr node ∷ after))
    → MayRun t s
    → (s' : NodeAllocator) × (release t node s ≡ some s')
      × ((i : ℕ) → (s'.caches i).count < cache_count)
caches_are_bounded t node s before after u may =
    let a = Uses-Agrees u in
    let here = middle_has (get_ptr node) before after in
    let (s', lists', f, r) =
      release_lem t node s a.lists a.valid may (a.not_null (get_ptr node) here)
        (a.in_use (get_ptr node) here) in
    (s', f, r.valid.bounded)

-- After any calls of get and release by threads that have a cache or for which one is left, in
-- which new returns addresses in user space that are not allocated and each live node is released
-- once, by any thread: destroy gives back the nodes of all caches and no others, so that the
-- addresses that are still allocated are those of the live nodes.
pub destroy_keeps_live :
    (s : NodeAllocator) (live : List ℕ) (a : ℕ)
    → Uses s live
    → ((destroy s).nodes.allocated a ≡ true) ↔ Has a live
destroy_keeps_live s live a u =
    let g = Uses-Agrees u in
    let (there, back) = destroy_lem s g.lists a g.valid in
    (λ e. g.listed a (there e), λ h. back (g.in_use a h))
