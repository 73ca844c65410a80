-- ===== src/Singleflight/Delivery.antt =====
-- Whoever waits for a call of middleware/singleflight/singleflight.go can get its result.
use dns_resolver.Singleflight.Invariant.{idle-IsTable, at_other, at_same}
use dns_resolver.Singleflight.Runs.{Steps-IsTable, unregister_is}
use dns_resolver.Cache.{Key}
use dns_resolver.Singleflight.Steps.{
  Step, Steps, goes_on, IsCall, wakes, closes, is_leading, stays, unregisters, is_closing, is_led,
  writes,
}
use dns_resolver.Singleflight.{
  Flight, Phase, idle, led, waiting, served, closing, leading, key_of, answer_waiter, wake, close,
  unregister, copy_for, record_message,
}
use dns_resolver.Dnsmsg.{Message}
use dns_resolver.Prelude.{ℕ, Option, ◌≡◌, ◌≢◌, subst, some, sym, refl, ◌∙◌, ap, none, ◌⊎◌, inl, inr}
use dns_resolver.Text.{Unicode}

module _ ⦃u : Unicode⦄ (requests : ℕ → Message) where
  -- A waiting query's copy of a message: its own ID, RD and questions, and the message's records.
  pub record IsCopy (req msg out : Message) : Type 0 where
    pub header : out.header ≡ record (msg.header) { id = req.header.id; rd = req.header.rd }
    pub questions : out.questions ≡ req.questions
    pub answers : out.answers ≡ msg.answers
    pub authorities : out.authorities ≡ msg.authorities
    pub additionals : out.additionals ≡ msg.additionals

  -- What a query that waited has written at the end of a call with this result.
  abbrev pub Gets : Message → Option Message → Phase → Type 0
  Gets req none p = p ≡ served none
  Gets req (some msg) p = (out : Message) × (p ≡ served (some out)) × IsCopy req msg out

  -- A run after which the call is over with the result, and the query has got it.
  abbrev pub Delivers : Flight → ℕ → ℕ → Option Message → Type 0
  Delivers s i c rec =
      (v : Flight) × Steps requests s v × (v.phase c ≡ led rec) × Gets (requests i) rec (v.phase i)

  -- The next handler has returned.
  abbrev pub IsSettled : Flight → ℕ → Option Message → Type 0
  IsSettled s c rec = (s.phase c ≡ closing rec) ⊎ (s.phase c ≡ led rec)

  answer_waiter-Gets :
      (req : Message) (rec : Option Message) (p : Phase)
      → p ≡ served (answer_waiter req rec)
      → Gets req rec p
  unfolding answer_waiter copy_for
  answer_waiter-Gets req none p h = h
  answer_waiter-Gets req (some msg) p h = (
    copy_for req msg,
    h,
    record {
      header = refl;
      questions = refl;
      answers = refl;
      authorities = refl;
      additionals = refl;
    },
  )

  before_that :
      {s t : Flight} (i c : ℕ) (rec : Option Message)
      → Step requests s t
      → Delivers t i c rec
      → Delivers s i c rec
  before_that i c rec step (v, run, l, p) = (v, goes_on step run, l, p)

  from_led :
      (s : Flight) (i c : ℕ) (rec : Option Message)
      → s.phase i ≡ waiting c
      → s.phase c ≡ led rec
      → Delivers s i c rec
  from_led s i c rec w l =
      let apart : c ≢ i = λ e. absurd (clash (subst (λ j. s.phase j ≡ led rec) e l)) in
      (
        wake requests i rec s,
        goes_on (wakes i c rec w l) stays,
        at_other i c (served (answer_waiter (requests i) rec)) s.phase apart ∙ l,
        answer_waiter-Gets (requests i) rec _
            (at_same i (served (answer_waiter (requests i) rec)) s.phase),
      )
    where
      clash : s.phase i ≡ led rec → ⊥
      clash h = absurd (cc)

  from_closing :
      (s : Flight) (i c : ℕ) (rec : Option Message)
      → s.phase i ≡ waiting c
      → s.phase c ≡ closing rec
      → Delivers s i c rec
  from_closing s i c rec w l = before_that i c rec (closes c rec l) (
      from_led (close requests c rec s) i c rec (at_other c i (led rec) s.phase apart ∙ w)
        (at_same c (led rec) s.phase))
    where
      apart : i ≢ c
      apart e =
          let h : s.phase i ≡ closing rec = subst (λ j. s.phase j ≡ closing rec) (sym e) l in
          absurd (cc)

  from_leading :
      (s : Flight) (i c : ℕ) (rec : Option Message) (k : Key)
      → s.phase i ≡ waiting c
      → s.phase c ≡ leading rec
      → key_of (requests c) ≡ some k
      → Delivers s i c rec
  from_leading s i c rec k w l key =
      let is = unregister_is requests s c k rec key in
      before_that i c rec (unregisters c rec l) (
        from_closing (unregister requests c rec s) i c rec
          (ap (λ t. t.phase i) is ∙ at_other c i (closing rec) s.phase apart ∙ w)
          (ap (λ t. t.phase c) is ∙ at_same c (closing rec) s.phase))
    where
      apart : i ≢ c
      apart e =
          let h : s.phase i ≡ leading rec = subst (λ j. s.phase j ≡ leading rec) (sym e) l in
          absurd (cc)

  -- The next handler writes the message, if it has not returned.
  by_call :
      (s : Flight) (i c : ℕ) (k : Key) (msg : Message) {p : Phase}
      → s.phase i ≡ waiting c
      → key_of (requests c) ≡ some k
      → s.phase c ≡ p
      → IsCall requests p
      → Delivers s i c (some msg)
        ⊎ ((rec : Option Message) × IsSettled s c rec × Delivers s i c rec)
  by_call s i c k msg w key e (is_leading rec) = inl (
      before_that i c (some msg) (writes c rec msg e) (
        from_leading (record_message requests c msg s) i c (some msg) k
          (at_other c i (leading (some msg)) s.phase apart ∙ w)
          (at_same c (leading (some msg)) s.phase) key))
    where
      apart : i ≢ c
      apart same =
          let h : s.phase i ≡ leading rec = subst (λ j. s.phase j ≡ leading rec) (sym same) e in
          absurd (cc)
  by_call s i c k msg w key e (is_closing rec) = inr (rec, inl e, from_closing s i c rec w e)
  by_call s i c k msg w key e (is_led rec) = inr (rec, inr e, from_led s i c rec w e)

  -- Nobody waits for a call that is lost. From every state that the queries can reach, for every
  -- query that waits: if the next handler has not returned for the call that it waits for, then for
  -- every message there is a run in which the handler writes that message last, the call ends with
  -- it, and the query is answered with a copy of it that has the query's own ID, RD and questions.
  -- If the handler has returned, there is a run in which the call ends with what was recorded, and
  -- the query is answered with such a copy of that, or with nothing where nothing was recorded.
  pub waiter-Delivers :
      (s : Flight) (i c : ℕ) (msg : Message)
      → Steps requests idle s
      → s.phase i ≡ waiting c
      → Delivers s i c (some msg)
        ⊎ ((rec : Option Message) × IsSettled s c rec × Delivers s i c rec)
  waiter-Delivers s i c msg run w =
      let (k, a, b, call) = (Steps-IsTable requests run (idle-IsTable requests)).waiters i c w in
      by_call s i c k msg w b refl call
