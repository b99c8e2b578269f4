-- ===== src/Security/Offers/Spent.antt =====
-- pairing.cpp: an offer is good for few guesses and for one use.
use smartmic_windows.Prelude.{
  ℕ, suc, ◌+◌, ◌-◌, ◌≤◌, ◌<◌, ◌^◌, ◌≡◌, refl, sym, ap, subst, Bool, true, false, ◌&&◌, List, [],
  ◌∷◌, Option, none, some, arith, length, ◌==◌, if◌then◌else◌, add32, ◌⊎◌, inl, inr, All,
}
use smartmic_windows.Security.Offers.{
  PairingOfferBook, OfferStatus, valid, same_text, refusal, compare_code, or_compare, verify, check,
  note_failed_attempt, consume, has_outstanding, or_valid, clear,
}

-- The calls on a book that issue no new offer.
pub data Call : Type 0 where
  verifies : List ℕ → List ℕ → ℕ → Call
  checks : List ℕ → ℕ → Call
  notes_failure : List ℕ → Call
  consumes : List ℕ → Call
  clears : Call

abbrev pub call : Call → PairingOfferBook → Option OfferStatus × PairingOfferBook
call (verifies sid code now) b = let (status, b') = verify sid code now b in (some status, b')
call (checks sid now) b = (some (check sid now b), b)
call (notes_failure sid) b = (none, note_failed_attempt sid b)
call (consumes sid) b = (none, consume sid b)
call clears b = (none, clear b)

-- The answers to the calls, in order.
abbrev pub calls : List Call → PairingOfferBook → List (Option OfferStatus) × PairingOfferBook
calls [] b = ([], b)
calls (c ∷ cs) b =
    let (answer, b') = call c b in let (answers, b'') = calls cs b' in (answer ∷ answers, b'')

-- The offer has been used, or its guesses are used up.
abbrev pub Spent : PairingOfferBook → Type 0
Spent b = (b.is_consumed ≡ true) ⊎ (b.policy.max_attempts ≤ b.attempts)

abbrev pub is_valid : Option OfferStatus → Bool
is_valid none = false
is_valid (some valid) = true
is_valid (some _) = false

abbrev is_refused : Option OfferStatus → Bool
is_refused none = false
is_refused (some valid) = false
is_refused (some _) = true

refusal-Spent :
    (sid : List ℕ) (now : ℕ) (b : PairingOfferBook)
    → Spent b
    → is_refused (refusal sid now b) ≡ true
unfolding refusal
refusal-Spent sid now b (inl used) = ground arith
refusal-Spent sid now b (inr out) = ground arith

refused :
    (o : Option OfferStatus) (code : List ℕ) (b : PairingOfferBook)
    → is_refused o ≡ true
    → (is_valid (some (or_compare o code b).0) ≡ false)
      × (is_valid (some (or_valid o)) ≡ false)
      × ((or_compare o code b).1 ≡ b)
unfolding or_compare
refused none code b e = ground arith
refused (some status) code b e = ground arith

-- Any call leaves a spent book spent, and no answer of it is `valid`.
record StaysSpent (b : PairingOfferBook) (out : Option OfferStatus × PairingOfferBook)
    : Type 0 where
  invalid : is_valid out.0 ≡ false
  spent : Spent out.1
  counted : out.1.attempts ≤ suc b.attempts

call-Spent :
    (c : Call) (b : PairingOfferBook) → Spent b → b.attempts < 2 ^ 32 - 1 → StaysSpent b (call c b)
unfolding verify check note_failed_attempt consume clear
call-Spent (verifies sid code now) b s h =
    let r = refused (refusal sid now b) code b (refusal-Spent sid now b s) in
    record {
      invalid = r.0;
      spent = subst Spent (sym r.2) s;
      counted = omega (arith, ap (λ q. q.attempts) r.2);
    }
call-Spent (checks sid now) b s h =
    let r = refused (refusal sid now b) [] b (refusal-Spent sid now b s) in
    record { invalid = r.1; spent = s; counted = omega arith }
call-Spent (notes_failure sid) b (inl used) h = record {
  invalid = refl;
  spent = inl (ground arith);
  counted = ground arith;
}
call-Spent (notes_failure sid) b (inr out) h = record {
  invalid = refl;
  spent = inr (ground arith);
  counted = ground arith;
}
call-Spent (consumes sid) b (inl used) h = record {
  invalid = refl;
  spent = inl (ground arith);
  counted = ground arith;
}
call-Spent (consumes sid) b (inr out) h = record {
  invalid = refl;
  spent = inr (ground arith);
  counted = ground arith;
}
call-Spent clears b (inl used) h = record {
  invalid = refl;
  spent = inl used;
  counted = omega arith;
}
call-Spent clears b (inr out) h = record { invalid = refl; spent = inr out; counted = omega arith }

-- Once an offer has been used, or its guesses are used up, no call that issues no new offer is ever
-- answered `valid` again, whatever code or session it names and whenever it comes; at most
-- 2 ^ 32 - 1 attempts are counted, where the counter would wrap.
pub Spent-for_good :
    (cs : List Call) (b : PairingOfferBook)
    → Spent b
    → b.attempts + length cs < 2 ^ 32 - 1
    → All (λ answer. is_valid answer ≡ false) (calls cs b).0
Spent-for_good [] b s h = tt
Spent-for_good (c ∷ cs) b s h =
    let one = call-Spent c b s (omega arith) in
    (one.invalid, Spent-for_good cs (call c b).1 one.spent (omega (arith, one.counted)))

-- A code is found valid exactly when the offer is live (issued, named by its session, not used, not
-- expired, guesses left) and the code is the offer's; a live offer counts the attempt, right or
-- wrong, and any other call leaves the book as it is.
pub verify_lem :
    (sid code : List ℕ) (now : ℕ) (b : PairingOfferBook)
    → let live = has_outstanding now b && same_text sid b.offer.session_id in
      let (status, b') = verify sid code now b in
      (is_valid (some status)
        ≡ (live && ((length code == length b.offer.code) && same_text code b.offer.code)))
      × (b' ≡ (if live then record b { attempts = add32 b.attempts 1 } else b))
unfolding verify has_outstanding refusal or_compare compare_code
verify_lem sid code now b = (ground arith, ground arith)
