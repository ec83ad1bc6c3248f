-- ===== src/Lua/Equivalent.antt =====
-- The scripts on a Redis server and their reimplementation in process reply the same and leave the
-- same values, at every later time.
use supply_chain_mangement_s.Common.{
  ℕ, String, true, false, ◌&&◌, Option, text-cases, eq_iff, ◌+◌, ◌*◌, ◌≤◌, ℤ, pos, ◌-ℤ◌, leb_ℤ,
  ltb_ℤ, ◌≡◌, ◌∙◌, refl, sym, ◌==◌, some, arith, Option-cases, Bool-cases, inl, inr, if◌then◌else◌,
}
use supply_chain_mangement_s.Bytes.{◌===◌}
use supply_chain_mangement_s.Dict.{insert, lookup-insert}
use supply_chain_mangement_s.Exec.{Result}
use supply_chain_mangement_s.Redis.{
  Redis, drop_key, peek, sweep, Mode, eval_reserve, resolve_mode, eval_release,
}
use supply_chain_mangement_s.Lua.{
  Commands, Documented, counted, IsTtl, hold_script, reserve_script, resolve_script, release_script,
}
use supply_chain_mangement_s.Lua.InProcess.{
  Off, Off-drop_key, Off-of_drop_key, Off-of_sweep, Off-of_add_back, NoStrayDeadline,
  drop_key-NoStrayDeadline, peek-sweep, sweep-NoStrayDeadline, held, reserve-invalid,
  reserve-unknown, reserve-short, reserve-held, peek-held, peek-drop, peek-add_back,
  add_back-NoStrayDeadline, release-gone, release-open,
}

module _ {S : Type 0} where
  -- The server and the object in process show the same value under each key, from `now` on, but
  -- perhaps at the very millisecond of its deadline.
  pub record SameValues (redis : Commands S) (now : ℕ) (s : S) (r : Redis) : Type 0 where
    pub same : (t : ℕ) (key : String) → now ≤ t → Off t key r → redis.get t key s ≡ peek t key r
    pub deadlines : NoStrayDeadline r

-- Both replied the same, and show the same values afterwards.
abbrev pub SameRun : {S A : Type 0} → Commands S → ℕ → Result A × S → Result A × Redis → Type 0
SameRun redis now lua mem = (lua.0 ≡ mem.0) × SameValues redis now lua.1 mem.1

-- A counter reads the same on both sides.
counted-same :
    {at_once at_once' later later' : Option ℤ} (change : ℤ)
    → at_once ≡ at_once'
    → later ≡ later'
    → counted at_once later change ≡ counted at_once' later' change
counted-same change e e' = cc (e, e')

module _ {S : Type 0} (redis : Commands S) (documented : Documented redis) (now : ℕ) (s : S)
    (r : Redis) (values : SameValues redis now s r) where
  -- A counted key that is asked for, and another one.
  get-counted :
      (t : ℕ) (key asked : String) (change : ℤ)
      → now ≤ t
      → Off now key r
      → Off t asked r
      → (if key == asked
          then counted (redis.get now key s) (redis.get t key s) change
          else redis.get t asked s)
        ≡ (if key == asked then counted (peek now key r) (peek t key r) change else peek t asked r)
  get-counted t key asked change late off_now off = elim (text-cases key asked) [
    | inl e ↦
        let here : (key == asked) ≡ true = (eq_iff key asked).1 e in
        rw here (
          counted-same change (values.same now key (omega arith) off_now)
            (values.same t key late (rw e off)))
    | inr other ↦ rw other.1 (values.same t asked late off)
  ]

  SameValues-held :
      (key resv_key : String) (qty : ℤ) (ttl : ℕ) (available : ℤ) (s' : S)
      → peek now key r ≡ some available
      → Off now key r
      → redis.set_ex now resv_key qty ttl (redis.decrby now key qty s) ≡ some s'
      → SameValues redis now s' (held now key resv_key qty ttl r available)
  SameValues-held key resv_key qty ttl available s' h off_now taken = record {
    same = λ t asked late off.
        let inserted = lookup-insert resv_key asked (now + ttl * 1000) r.expires_at in
        let apart : (resv_key == asked && t === now + ttl * 1000) ≡ false =
          ground (arith, off, inserted) in
        documented.get-set_ex now t resv_key asked qty ttl (redis.decrby now key qty s) s' taken
          late apart
        ∙ elim (Bool-cases (resv_key == asked)) [
          | inl e ↦ rw (peek-held now t key resv_key asked qty ttl available r h, e) refl
          | inr e ↦
              rw (peek-held now t key resv_key asked qty ttl available r h, e)
                (documented.get-decrby now t key asked qty s late
                  ∙ get-counted t key asked (pos 0 -ℤ qty) late off_now
                      (ground (arith, off, inserted, e))
                  ∙ rw h refl)
        ];
    deadlines = λ asked absent. ground (
      arith,
      absent,
      lookup-insert resv_key asked qty (insert key (available -ℤ qty) r.store),
      lookup-insert key asked (available -ℤ qty) r.store,
      lookup-insert resv_key asked (now + ttl * 1000) r.expires_at,
      values.deadlines asked,
    );
  }

  -- A key that has expired by now may be swept in process.
  SameValues-sweep : (key : String) → Off now key r → SameValues redis now s (sweep now key r)
  SameValues-sweep key off_now = record {
    same = λ t asked late off.
        values.same t asked late (Off-of_sweep now t key asked r late off_now off)
        ∙ sym (peek-sweep now t key asked r late);
    deadlines = sweep-NoStrayDeadline now key r values.deadlines;
  }

  -- reserve.lua on the server and `evalReserve`
  pub reserve-SameRun :
      (key resv_key : String) (qty : ℤ) (ttl : ℕ)
      → IsTtl ttl
      → Off now key r
      → SameRun redis now
          (reserve_script redis now key resv_key qty ttl s)
          (eval_reserve now key resv_key qty ttl r)
  unfolding reserve_script hold_script
  reserve-SameRun key resv_key qty ttl long off_now = elim (Bool-cases (leb_ℤ qty (pos 0))) [
    | inl e ↦ rw (reserve-invalid now key resv_key qty ttl r e, e) (refl, values)
    | inr e ↦
        let agrees = values.same now key (omega arith) off_now in
        elim (Option-cases (peek now key r)) [
          | inl h ↦
              rw (reserve-unknown now key resv_key qty ttl r e h, reserve_script, agrees, h, e)
                (refl, SameValues-sweep key off_now)
          | inr (available, h) ↦ elim (Bool-cases (ltb_ℤ available qty)) [
            | inl short ↦
                rw
                  (
                    reserve-short now key resv_key qty ttl r available e h short,
                    reserve_script,
                    agrees,
                    h,
                    e,
                    short,
                  )
                  (refl, values)
            | inr enough ↦
                let (s', taken) =
                  documented.set_ex_taken now resv_key qty ttl (redis.decrby now key qty s) long in
                rw
                  (
                    reserve-held now key resv_key qty ttl r available e h enough,
                    reserve_script,
                    agrees,
                    h,
                    e,
                    enough,
                    hold_script,
                    taken,
                  )
                  (refl, SameValues-held key resv_key qty ttl available s' h off_now taken)
          ]
        ]
  ]

  SameValues-drop : (key : String) → SameValues redis now (redis.del now key s) (drop_key key r)
  SameValues-drop key = record {
    same = λ t asked late off.
        documented.get-del now t key asked s late ∙ elim (Bool-cases (key == asked)) [
          | inl e ↦ rw (peek-drop t key asked r, e) refl
          | inr e ↦
              rw (peek-drop t key asked r, e)
                (values.same t asked late (Off-of_drop_key t key asked r e off))
        ];
    deadlines = drop_key-NoStrayDeadline key r values.deadlines;
  }

  resolve-SameRun :
      (key : String) (qty : ℤ) (mode : Mode)
      → Off now key r
      → SameRun redis now
          (resolve_script redis now key qty mode s)
          (resolve_mode now key qty mode r)
  unfolding resolve_script resolve_mode
  resolve-SameRun key qty Mode.release off_now = (
    refl,
    record {
      same = λ t asked late off.
          documented.get-incrby now t key asked qty s late
          ∙ get-counted t key asked qty late off_now
              (Off-of_add_back now t key asked qty r late off_now off)
          ∙ sym (peek-add_back now t key asked qty r late values.deadlines);
      deadlines = add_back-NoStrayDeadline now key qty r values.deadlines;
    },
  )
  resolve-SameRun key qty Mode.commit off_now = (refl, values)
  resolve-SameRun key qty (Mode.other name) off_now = (refl, values)

module _ {S : Type 0} (redis : Commands S) (documented : Documented redis) (now : ℕ) (s : S)
    (r : Redis) (values : SameValues redis now s r) where
  -- release.lua on the server and `evalRelease`
  pub release-SameRun :
      (key resv_key : String) (mode : Mode)
      → Off now key r
      → Off now resv_key r
      → SameRun redis now
          (release_script redis now key resv_key mode s)
          (eval_release now key resv_key mode r)
  unfolding release_script
  release-SameRun key resv_key mode off_stock off_now =
      let agrees = values.same now resv_key (omega arith) off_now in
      elim (Option-cases (peek now resv_key r)) [
        | inl h ↦
            rw (release-gone now key resv_key mode r h, release_script, agrees, h)
              (refl, SameValues-sweep redis documented now s r values resv_key off_now)
        | inr (qty, h) ↦
            rw (release-open now key resv_key mode r qty h, release_script, agrees, h)
              (resolve-SameRun redis documented now (redis.del now resv_key s) (drop_key resv_key r)
                (SameValues-drop redis documented now s r values resv_key) key qty mode
                (Off-drop_key now resv_key key r off_stock))
      ]
