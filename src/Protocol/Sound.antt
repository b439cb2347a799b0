-- ===== src/Protocol/Sound.antt =====
-- Every step of a job keeps it sound, and a finished job makes no further step but on its leases.
use chaos_harness.Common.{
  ◌∙◌, ℕ, ◌<◌, ◌≡◌, refl, sym, ap, subst, Bool, true, false, Option, none, some, List, [], ◌∷◌,
  arith, update, All, if◌then◌else◌,
}
use chaos_harness.Common.Int.{pos}
use chaos_harness.Schema.{
  JobState, pending, leased, succeeded, failed, cancelled, Transition, Lease, Commit, is_live,
  latest,
}
use chaos_harness.Protocol.{
  View, Edge, Walk, IsExpired, IsFalling, IsOwned, IsSound, Head, mark, JobStep, stay, submit,
  claim, renew, expire, requeue, accept, cancel,
}

-- Updates that keep the fence keep the order.
module _ (p : Lease → Bool) (f : Lease → Lease) (keeps : (l : Lease) → (f l).fence ≡ l.fence) where
  All-below-update :
      (n : ℕ) (ls : List Lease) → All (λ m. m.fence < n) ls → All (λ m. m.fence < n) (update p f ls)
  unfolding update
  All-below-update n [] h = tt
  All-below-update n (l ∷ ls) h = (ground (arith, keeps l), All-below-update n ls h.1)

  fence-if : (l : Lease) → (if p l then f l else l).fence ≡ l.fence
  fence-if l = ground (arith, keeps l)

  pub IsFalling-update : (ls : List Lease) → IsFalling ls → IsFalling (update p f ls)
  unfolding update
  IsFalling-update [] h = tt
  IsFalling-update (l ∷ ls) h = (
    subst (λ n. All (λ m. m.fence < n) (update p f ls)) (sym (fence-if l))
        (All-below-update l.fence ls h.0),
    IsFalling-update ls h.1,
  )

All-IsExpired-mark :
    (p : Lease → Bool) (now : ℕ) (ls : List Lease)
    → All IsExpired ls
    → All IsExpired (update p (mark now) ls)
unfolding update
All-IsExpired-mark p now [] h = tt
All-IsExpired-mark p now (l ∷ ls) h = (ground arith, All-IsExpired-mark p now ls h.1)

All-IsExpired-renew :
    (p : Lease → Bool) (d : ℕ) (ls : List Lease)
    → All IsExpired ls
    → All IsExpired (update p (λ l. record l { expires_at_ms = d }) ls)
unfolding update
All-IsExpired-renew p d [] h = tt
All-IsExpired-renew p d (l ∷ ls) h = (ground arith, All-IsExpired-renew p d ls h.1)

pub latest-falling : (l : Lease) (ls : List Lease) → IsFalling (l ∷ ls) → latest (l ∷ ls) ≡ some l
unfolding latest
latest-falling l [] h = refl
latest-falling l (m ∷ ls) h = rw (latest-falling m ls h.1) (ground arith)

-- A live latest lease and no accepted commit: the job is leased.
live-leased :
    (s : Option JobState) (ls : List Lease) (cs : List Commit) (l : Lease)
    → IsOwned s (l ∷ ls) cs
    → is_live l ≡ true
    → cs ≡ []
    → s ≡ some leased
live-leased none ls cs l o h e = ground arith
live-leased (some pending) ls cs l o h e = ground arith
live-leased (some leased) ls cs l o h e = refl
live-leased (some succeeded) ls [] l o h e = absurd o
live-leased (some succeeded) ls (c ∷ cs) l o h e = cc
live-leased (some failed) ls cs l o h e = absurd o
live-leased (some cancelled) ls cs l o h e = ground arith

renew-owned :
    (p : Lease → Bool) (d : ℕ) (s : Option JobState) (ls : List Lease) (cs : List Commit)
    → IsOwned s ls cs
    → IsOwned s (update p (λ l. record l { expires_at_ms = d }) ls) cs
unfolding update
renew-owned p d none ls cs o = (ap (update p (λ l. record l { expires_at_ms = d })) o.0, o.1)
renew-owned p d (some pending) ls cs o = (All-IsExpired-renew p d ls o.0, o.1)
renew-owned p d (some leased) (l ∷ ls) cs o =
    ((ground arith, All-IsExpired-renew p d ls o.0.1), o.1)
renew-owned p d (some leased) [] cs o = absurd o.0
renew-owned p d (some succeeded) [] cs o = absurd o
renew-owned p d (some succeeded) (l ∷ ls) [] o = absurd o
renew-owned p d (some succeeded) (l ∷ ls) (c ∷ []) o =
    (ground arith, All-IsExpired-renew p d ls o.1)
renew-owned p d (some succeeded) (l ∷ ls) (c ∷ _ ∷ _) o = absurd o
renew-owned p d (some failed) ls cs o = o
renew-owned p d (some cancelled) ls cs o = (All-IsExpired-renew p d ls o.0, o.1)

expire-owned :
    (p : Lease → Bool) (now : ℕ) (s : Option JobState) (ls : List Lease) (cs : List Commit)
    → (s ≡ some leased → Head false p ls)
    → IsOwned s ls cs
    → IsOwned s (update p (mark now) ls) cs
unfolding update
expire-owned p d none ls cs g o = (ap (update p (mark d)) o.0, o.1)
expire-owned p d (some pending) ls cs g o = (All-IsExpired-mark p d ls o.0, o.1)
expire-owned p d (some leased) (l ∷ ls) cs g o =
    ((ground (arith, g refl), All-IsExpired-mark p d ls o.0.1), o.1)
expire-owned p d (some leased) [] cs g o = absurd o.0
expire-owned p d (some succeeded) [] cs g o = absurd o
expire-owned p d (some succeeded) (l ∷ ls) [] g o = absurd o
expire-owned p d (some succeeded) (l ∷ ls) (c ∷ []) g o =
    (ground arith, All-IsExpired-mark p d ls o.1)
expire-owned p d (some succeeded) (l ∷ ls) (c ∷ _ ∷ _) g o = absurd o
expire-owned p d (some failed) ls cs g o = o
expire-owned p d (some cancelled) ls cs g o = (All-IsExpired-mark p d ls o.0, o.1)

-- Expiring the held lease leaves none that is live.
requeue-owned :
    (p : Lease → Bool) (now : ℕ) (ls : List Lease) (cs : List Commit)
    → Head true p ls
    → IsOwned (some leased) ls cs
    → IsOwned (some pending) (update p (mark now) ls) cs
unfolding update
requeue-owned p now [] cs g o = absurd o.0
requeue-owned p now (l ∷ ls) cs g o = ((ground arith, All-IsExpired-mark p now ls o.0.1), o.1)

-- The commit's lease is the first one, and the others have expired.
pub accept-owned :
    (s : Option JobState) (ls : List Lease) (cs : List Commit) (c : Commit) (l : Lease)
    → IsFalling ls
    → latest ls ≡ some l
    → is_live l ≡ true
    → c.fence ≡ pos l.fence
    → cs ≡ []
    → IsOwned s ls cs
    → (s ≡ some leased) × IsOwned (some succeeded) ls (c ∷ cs)
unfolding latest
accept-owned s [] cs c l f e live k n o = cc
accept-owned s (m ∷ ls) cs c l f e live k n o =
    let same : m ≡ l = cc (latest-falling m ls f) in
    let held : s ≡ some leased =
      live-leased s ls cs m o (subst (λ x. is_live x ≡ true) (sym same) live) n in
    let o' : IsOwned (some leased) (m ∷ ls) cs = subst (λ x. IsOwned x (m ∷ ls) cs) held o in
    (held, rw n (k ∙ ap (λ (x : Lease). pos x.fence) (sym same), o'.0.1))

-- One more entry of the log.
walk-step :
    (s : Option JobState) (b : JobState) (t : Transition) (ts : List Transition)
    → t.from_state ≡ s
    → t.to_state ≡ b
    → Edge s b
    → Walk s ts
    → Walk (some b) (t ∷ ts)
walk-step s b t ts from to edge w = (to, rw from edge, rw from w)

abbrev owned_at :
    {v : View} {s : Option JobState} → IsSound v → v.state ≡ s → IsOwned s v.leases v.accepted
owned_at {v} h e = subst (λ s. IsOwned s v.leases v.accepted) e h.owned

abbrev walk_at : {v : View} {s : Option JobState} → IsSound v → v.state ≡ s → Walk s v.history
walk_at {v} h e = subst (λ s. Walk s v.history) e h.walk

-- Every step of the protocol keeps a job sound.
pub JobStep-IsSound : {v v' : View} → JobStep v v' → IsSound v → IsSound v'
JobStep-IsSound {v} (stay e) h = rw e h
JobStep-IsSound {v} (submit t s f to e) h = rw e (record {
  owned = let o = owned_at h s in rw (o.0, o.1) (tt, refl);
  falling = h.falling;
  walk = walk-step none pending t v.history f to Edge.submit (walk_at h s);
})
JobStep-IsSound {v} (claim t l s f to live above e) h = rw e (record {
  owned = let o = owned_at h s in ((live, o.0), o.1);
  falling = (above, h.falling);
  walk = walk-step (some pending) leased t v.history f to Edge.claim (walk_at h s);
})
JobStep-IsSound {v} (renew p d e) h = rw e (record {
  owned = renew-owned p d v.state v.leases v.accepted h.owned;
  falling = IsFalling-update p (λ l. record l { expires_at_ms = d }) (λ l. refl) v.leases h.falling;
  walk = h.walk;
})
JobStep-IsSound {v} (expire p now g e) h = rw e (record {
  owned = expire-owned p now v.state v.leases v.accepted g h.owned;
  falling = IsFalling-update p (mark now) (λ l. refl) v.leases h.falling;
  walk = h.walk;
})
JobStep-IsSound {v} (requeue t p now s f to g e) h = rw e (record {
  owned = requeue-owned p now v.leases v.accepted g (owned_at h s);
  falling = IsFalling-update p (mark now) (λ l. refl) v.leases h.falling;
  walk = walk-step (some leased) pending t v.history f to Edge.requeue (walk_at h s);
})
JobStep-IsSound {v} (accept t c l last live k n f to e) h =
    let o = accept-owned v.state v.leases v.accepted c l h.falling last live k n h.owned in
    rw e (record {
      owned = o.1;
      falling = h.falling;
      walk = walk-step (some leased) succeeded t v.history f to Edge.finish (walk_at h o.0);
    })
JobStep-IsSound {v} (cancel t s f to e) h = rw e (record {
  owned = owned_at h s;
  falling = h.falling;
  walk = walk-step (some pending) cancelled t v.history f to Edge.cancel (walk_at h s);
})
