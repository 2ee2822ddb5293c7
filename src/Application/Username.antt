-- ===== src/Application/Username.antt =====
-- Whose username a form submits: the flow from `onVerifyUsername` to `createRequest`, over every
-- order of events.
pub mod Preserve
use mc_gatekeeper.Prelude.{
  ℕ, ◌+◌, ◌-◌, ◌≤◌, ◌<◌, String, Bool, true, false, not, ◌||◌, ◌==◌, nat_eq, ltb, Option, none,
  some, List, [], ◌∷◌, ◌++◌, Memᴰ, All, All-append, All-take_at, count_if, count_if-append,
  count_if-take_at, take_at, if◌then◌else◌, ◌≡◌, refl, sym, inl, inr, Bool-cases, Option-cases,
  arith, ◌▷◌, ◌∙◌,
}
use mc_gatekeeper.Js.{Value, Outcome, fulfilled, rejected, get, truthy}
use mc_gatekeeper.Page.{settle}
use mc_gatekeeper.Application.{
  State, initial, Name, email, username, gender, age, application_text, NewRequest, Call, verify,
  create_request, get_skin_image, get_qr_code_content, AppPage, read_skin_url, Symbol, read_symbol,
  is_verification,
}

abbrev pub History : Type 0
History = List (Call × Outcome)

-- The skin of the account `name` was found at `url`.
pub record Served (h : History) (name : String) (url : Value) : Type 0 where
  pub body : Value
  pub answered : Memᴰ (get_skin_image name, fulfilled 200 body) h
  pub points : read_skin_url body ≡ some url

-- The skin of the account `name` was found, and its picture reads as the verification code.
pub record Confirmed (h : History) (name : String) : Type 0 where
  pub url : Value
  pub skin : Served h name url
  pub status : ℕ
  pub body : Value
  pub symbol : Symbol
  pub scanned : Memᴰ (get_qr_code_content name url, fulfilled status body) h
  pub reads : read_symbol body ≡ some symbol
  pub verifies : is_verification symbol ≡ true

-- While an account is checked, the form holds its name and cannot be changed.
abbrev pub Checking : State → String → Type 0
Checking s name = (s.loading ≡ true) × (s.verified ≡ false) × (name ≡ s.username)

abbrev pub IsCallOk : History → State → Call → Type 0
IsCallOk h s (verify response) = s.verified ≡ true
IsCallOk h s (create_request r) = Confirmed h r.username
IsCallOk h s (get_skin_image name) = Checking s name
IsCallOk h s (get_qr_code_content name url) = Checking s name × Served h name url

abbrev pub is_check : Call → Bool
is_check (get_skin_image _) = true
is_check (get_qr_code_content _ _) = true
is_check _ = false

pub record Inv (p : AppPage) : Type 0 where
  pub calls : All (IsCallOk p.settled p.state) p.pending
  pub single : count_if is_check p.pending ≤ 1
  pub challenged : 0 < p.challenges → p.state.verified ≡ true
  pub confirmed : p.state.verified ≡ true → Confirmed p.settled p.state.username

abbrev Within : History → History → Type 0
Within h k = (e : Call × Outcome) → Memᴰ e h → Memᴰ e k

module _ {h k : History} (sub : Within h k) where
  Served-mono : {name : String} {url : Value} → Served h name url → Served k name url
  Served-mono s = record { body = s.body; answered = sub _ s.answered; points = s.points }

  Confirmed-mono : {name : String} → Confirmed h name → Confirmed k name
  Confirmed-mono c = record {
    url = c.url;
    skin = Served-mono c.skin;
    status = c.status;
    body = c.body;
    symbol = c.symbol;
    scanned = sub _ c.scanned;
    reads = c.reads;
    verifies = c.verifies;
  }

  -- What a change of the other fields leaves of the calls.
  module _ (s s' : State) (l : s'.loading ≡ s.loading) (v : s'.verified ≡ s.verified)
      (u : s'.username ≡ s.username) where
    keep-call : (c : Call) → IsCallOk h s c → IsCallOk k s' c
    keep-call (verify response) ok = v ∙ ok
    keep-call (create_request r) ok = Confirmed-mono ok
    keep-call (get_skin_image name) ok = ground arith
    keep-call (get_qr_code_content name url) (ok, served) = (ground arith, Served-mono served)

    keep-calls : (cs : List Call) → All (IsCallOk h s) cs → All (IsCallOk k s') cs
    keep-calls [] ok = tt
    keep-calls (c ∷ cs) (ok, oks) = (keep-call c ok, keep-calls cs oks)

  -- Where no check is in flight, only the flag of the verification matters.
  idle-calls :
      (s s' : State)
      → (s.verified ≡ true → s'.verified ≡ true)
      → (cs : List Call) → count_if is_check cs ≡ 0
      → All (IsCallOk h s) cs
      → All (IsCallOk k s') cs
  idle-calls s s' v [] n ok = tt
  idle-calls s s' v (verify response ∷ cs) n (ok, oks) =
      (v ok, idle-calls s s' v cs (omega arith) oks)
  idle-calls s s' v (create_request r ∷ cs) n (ok, oks) =
      (Confirmed-mono ok, idle-calls s s' v cs (omega arith) oks)
  idle-calls s s' v (get_skin_image name ∷ cs) n ok = absurd (omega arith)
  idle-calls s s' v (get_qr_code_content name url ∷ cs) n ok = absurd (omega arith)

-- A form that is not being checked has no check in flight.
none-checking :
    (h : History) (s : State) (cs : List Call)
    → s.loading ≡ false
    → All (IsCallOk h s) cs
    → count_if is_check cs ≡ 0
none-checking h s [] l ok = refl
none-checking h s (verify response ∷ cs) l (ok, oks) = omega (arith, none-checking h s cs l oks)
none-checking h s (create_request r ∷ cs) l (ok, oks) = omega (arith, none-checking h s cs l oks)
none-checking h s (get_skin_image name ∷ cs) l ((busy, _, _), oks) = cc
none-checking h s (get_qr_code_content name url ∷ cs) l (((busy, _, _), _), oks) = cc

-- A handler that sets neither flag nor the username keeps the invariant.
pub keep-Inv :
    {p : AppPage} (s : State) (n : ℕ)
    → s.loading ≡ p.state.loading
    → s.verified ≡ p.state.verified
    → s.username ≡ p.state.username
    → Inv p
    → Inv (record p { state = s; timers = n })
keep-Inv {p} s n l v u i = record {
  calls = keep-calls (λ e m. m) p.state s l v u _ i.calls;
  single = i.single;
  challenged = λ c. v ∙ i.challenged c;
  confirmed = λ c. rw u (i.confirmed (sym v ∙ c));
}

-- With no check in flight, a handler may set them.
pub idle-Inv :
    {p : AppPage} (s : State) (n : ℕ)
    → count_if is_check p.pending ≡ 0
    → (p.state.verified ≡ true → s.verified ≡ true)
    → (s.verified ≡ true → Confirmed p.settled s.username)
    → Inv p
    → Inv (record p { state = s; timers = n })
idle-Inv {p} s n idle v c i = record {
  calls = idle-calls (λ e m. m) p.state s v _ idle i.calls;
  single = i.single;
  challenged = λ h. v (i.challenged h);
  confirmed = c;
}

-- A call that is in order joins those in flight.
pub call-Inv :
    {p : AppPage} (c : Call)
    → IsCallOk p.settled p.state c
    → count_if is_check p.pending + count_if is_check (c ∷ []) ≤ 1
    → Inv p
    → Inv (record p { pending = p.pending ++ c ∷ [] })
call-Inv c ok n i = record {
  calls = All-append _ _ _ i.calls (ok, tt);
  single = omega (arith, count_if-append is_check _ (c ∷ []));
  challenged = i.challenged;
  confirmed = i.confirmed;
}

-- A promise that settles was in order, and the page is, without it.
pub settle-Inv :
    {p : AppPage} (j : ℕ) (c : Call) (o : Outcome) (rest : List Call)
    → take_at j p.pending ≡ some (c, rest)
    → Inv p
    → IsCallOk ((c, o) ∷ p.settled) p.state c
      × (count_if is_check rest + count_if is_check (c ∷ []) ≤ 1)
      × Inv (p ▷ settle c o rest)
settle-Inv {p} j c o rest e i =
    let (ok, oks) = All-take_at (IsCallOk p.settled p.state) j p.pending e i.calls in
    let n = count_if-take_at is_check j p.pending e in
    (
      keep-call (λ e m. Memᴰ.tail m) p.state p.state refl refl refl c ok,
      omega (arith, n, i.single),
      record {
        calls = keep-calls (λ e m. Memᴰ.tail m) p.state p.state refl refl refl rest oks;
        single = omega (arith, n, i.single);
        challenged = i.challenged;
        confirmed = λ v. Confirmed-mono (λ e m. Memᴰ.tail m) (i.confirmed v);
      },
    )
