-- ===== src/Examples/Recorded.antt =====
-- A chain that records what it has accepted.
use mathlib.Core.List.{Memᴰ}
use covenant.Prelude.{◌≡◌, refl, ap, sym, subst, inl, some, List, [], ◌∷◌, ◌++◌, ok, All}
use covenant.Prelude.Results.{ok-injective}
use covenant.Machine.{World}
use covenant.Types.Delegation.{Delegation, CovenantSigs}
use covenant.Keyring.{get_chain_priv_key}
use covenant.Emulator.Defs.{CovenantEmulator, get_priv_key}
use covenant.Emulator.Sanitize.Kept.{HasSigBy}
use covenant.Emulator.Loop.{tick, query_and_sign, sign_pending, submit_batches}
use covenant.Emulator.Batches.{delegations_to_batches}
use covenant.Emulator.Sanitize.{remove_already_signed, already_signed}
use covenant.Emulator.Lifecycle.{
  Life, new, finished, selecting, here, more, start_adds, start_launches, ticker_fires, tick_ends,
}
use covenant.Emulator.Lifecycle.Once.{reached_sign_once}
use covenant.Emulator.Loop.Acts.{Acts, none_yet}
use covenant.Emulator.Loop.Once.{IsRecording, Spares}
use covenant.Examples.Toy.{toy, Chain, chain, delegation, emulator, start}
use covenant.Examples.Signing.{signatures}
use covenant.Examples.Ticks.{repeat, repeat-IsRetry, updates}

abbrev shown_delegation : Chain → Delegation toy
shown_delegation [] = delegation
shown_delegation (s ∷ sigs) = record delegation {
  covenant_sigs = record { pk = 1; sigs = [] } ∷ [];
}

abbrev with_records : CovenantEmulator toy Chain
with_records = record (emulator []) {
  cc = record (chain []) {
    submit_covenant_sigs = λ sigs w.
        (ok (record { tx_hash = "hash"; events = [] }), record w { outside = sigs ++ w.outside });
    query_pending_delegations = λ limit w. (ok (some (shown_delegation w.outside) ∷ []), w);
  };
}

abbrev HasRecord : Chain → Type 0
HasRecord [] = ⊥
HasRecord (s ∷ sigs) = Unit

All-const : {P : Type 0} (xs : List (CovenantSigs toy)) → P → All (λ s. s.public_key ≡ 1 → P) xs
All-const [] p = tt
All-const (x ∷ xs) p = (λ own. p, All-const xs p)

accepts :
    (made before : List (CovenantSigs toy))
    → All (λ s. s.public_key ≡ 1 → HasRecord (made ++ before)) made
accepts [] before = tt
accepts (s ∷ made) before = (λ own. tt, All-const made tt)

keeps : (made before : List (CovenantSigs toy)) → HasRecord before → HasRecord (made ++ before)
keeps [] before h = h
keeps (s ∷ made) before h = tt

shows :
    (recorded : Chain)
    → HasRecord recorded
    → HasSigBy {b = toy} 1 (shown_delegation recorded).covenant_sigs
shows [] h = absurd h
shows (s ∷ sigs) h = inl refl

one_shown : (d e : Delegation toy) → Memᴰ (some d) (some e ∷ []) → d ≡ e
one_shown d e (Memᴰ.head k) = cc
one_shown d e (Memᴰ.tail m) = elim m [ ]

recording : IsRecording with_records
unfolding get_priv_key get_chain_priv_key
recording = record {
  recorded = λ w h. HasRecord w.outside;
  accepted = λ made res u v e.
      subst (λ w. All (λ s. s.public_key ≡ 1 → HasRecord w.outside) made) (ap (λ x. x.1) e)
        (accepts made u.outside);
  shown = λ limit pending u v e d tx m t r.
      (let page = ok-injective (ap (λ x. x.0) e) in
        let same = one_shown d (shown_delegation u.outside) (subst (Memᴰ (some d)) (sym page) m) in
        subst (λ x. HasSigBy {b = toy} 1 x.covenant_sigs) (sym same) (shows u.outside r));
  kept_by_key = λ u h r. r;
  kept_by_params = λ u h r. r;
  kept_by_query = λ limit u h r. r;
  kept_by_submit = λ made u h r. keeps made u.outside r;
}

abbrev accepted_at : World Chain
accepted_at = record start { outside = signatures ∷ [] }

abbrev before_tick : Life toy Chain
before_tick = record (new with_records accepted_at) {
  start_once = finished;
  wg = 1;
  loop = selecting;
}

ticked : tick repeat 10 with_records accepted_at ≡ (ok with_records, accepted_at)
unfolding tick query_and_sign sign_pending remove_already_signed already_signed
    delegations_to_batches submit_batches
ticked = rw (updates with_records accepted_at refl) refl

reached_sign_once_example :
    (acts : Acts with_records accepted_at accepted_at) × Spares with_records "aa" acts
reached_sign_once_example =
    reached_sign_once with_records accepted_at repeat 10 repeat-IsRetry recording (signatures ∷ [])
      (record { tx_hash = "hash"; events = [] }) start accepted_at refl signatures (Memᴰ.head refl)
      refl before_tick before_tick (more (more here (start_adds refl)) (start_launches refl))
      none_yet (more (more here (ticker_fires refl)) (tick_ends refl ticked))
