-- ===== src/Identity/Accounts/Registered.antt =====
-- A registration that succeeds, and the login after it (server/internal/modules/identity/service.go).
use vybe.Base.{
  ℕ, ◌≡◌, ◌≢◌, refl, sym, ap, ◌∙◌, false, Option, none, some, List, Bool-cases, inl, inr, ◌⊎◌,
  if◌then◌else◌,
}
use vybe.Base.Int.{ℤ}
use vybe.Identity.Normal.{normalise_email, normalise_handle}
use vybe.Identity.Registration.{AgeBand, Date, derive_age_band, PasswordError, validate_password}
use vybe.Identity.Service.{Issuer, TokenPair}
use vybe.Identity.Credentials.{
  Accounts, AccountError, email_taken_by, handle_taken_by, with_user, create_user,
}
use vybe.Identity.Accounts.{
  Passwords, Draws, RegisterInput, new_user, start_session, register_created, register_hashed,
  register_aged, register_checked, register_named, register_addressed, register,
}

-- What a registration that succeeded has found and stored.
pub record IsRegistered (p : Passwords) (i : Issuer) (s t : Accounts) (d : Draws)
    (input : RegisterInput) (today : Date) (now : ℤ) (pair : TokenPair) : Type 0 where
  pub email : List ℕ
  pub handle : List ℕ
  pub hash : List ℕ
  pub addressed : normalise_email p.lower_rune input.email ≡ some email
  pub named : normalise_handle p.lower_rune input.handle ≡ some handle
  pub strong : validate_password p.breaches input.password_runes input.password ≡ none
  pub old_enough : derive_age_band input.date_of_birth today ≢ AgeBand.under_13
  pub hashed : p.hash d.salt input.password ≡ some hash
  pub new_email : email_taken_by s email ≡ false
  pub new_handle : handle_taken_by s handle ≡ false
  pub started :
      let user = new_user d input handle (derive_age_band input.date_of_birth today) now in
      start_session p i (with_user s user email hash) d user input.device_name input.platform now
      ≡ (t, inr pair)

-- What an operation of the accounts gives.
abbrev pub Answer : Type 0
Answer = Accounts × (AccountError ⊎ TokenPair)

refused :
    {A : Type 0} (s t : Accounts) (e : AccountError) (pair : TokenPair)
    → (let a : Answer = (s, inl e) in let b : Answer = (t, inr pair) in a ≡ b)
    → A
refused {A} s t e pair h = absurd (clash (ap (λ x. x.1) h))
  where
    clash : inl e ≡ inr pair → ⊥
    clash k = cc

module _ (p : Passwords) (i : Issuer) (s t : Accounts) (d : Draws) (input : RegisterInput)
    (today : Date) (now : ℤ) (pair : TokenPair) where
  Stages : List ℕ → List ℕ → Type 0
  Stages email handle =
      (hash : List ℕ) × (p.hash d.salt input.password ≡ some hash)
      × (email_taken_by s email ≡ false)
      × (handle_taken_by s handle ≡ false)
      × (let user = new_user d input handle (derive_age_band input.date_of_birth today) now in
          start_session p i (with_user s user email hash) d user input.device_name input.platform
            now
          ≡ (t, inr pair))

  hashed-Stages :
      (email handle : List ℕ) (o : Option (List ℕ))
      → p.hash d.salt input.password ≡ o
      → email_taken_by s email ≡ false
      → handle_taken_by s handle ≡ false
      → register_hashed o p i s d
          (new_user d input handle (derive_age_band input.date_of_birth today) now)
          email
          input
          now
        ≡ (t, inr pair)
      → Stages email handle
  unfolding register_hashed create_user new_user register_created Stages
  hashed-Stages email handle none is e f h = refused s t AccountError.internal pair h
  hashed-Stages email handle (some hash) is e f h = (hash, is, e, f, sym (rw (e, f) refl) ∙ h)

  free-Stages :
      (email handle : List ℕ) (band : AgeBand)
      → derive_age_band input.date_of_birth today ≡ band
      → (if email_taken_by s email
          then (s, inl AccountError.email_taken)
          else if handle_taken_by s handle
          then (s, inl AccountError.handle_taken)
          else register_hashed
              (p.hash d.salt input.password)
              p
              i
              s
              d
              (new_user d input handle band now)
              email
              input
              now)
        ≡ (t, inr pair)
      → Stages email handle
  free-Stages email handle band is h = elim (Bool-cases (email_taken_by s email)) [
    | inl taken ↦ refused s t AccountError.email_taken pair (sym (rw taken refl) ∙ h)
    | inr new ↦ elim (Bool-cases (handle_taken_by s handle)) [
      | inl taken ↦ refused s t AccountError.handle_taken pair (sym (rw (new, taken) refl) ∙ h)
      | inr free ↦ hashed-Stages email handle (p.hash d.salt input.password) refl new free (
          ap
            (λ b.
              register_hashed (p.hash d.salt input.password) p i s d (new_user d input handle b now)
                email input now)
            is
          ∙ sym (rw (new, free) refl)
          ∙ h)
    ]
  ]

  aged-Stages :
      (email handle : List ℕ) (band : AgeBand)
      → derive_age_band input.date_of_birth today ≡ band
      → register_aged band p i s d email handle input now ≡ (t, inr pair)
      → (band ≢ AgeBand.under_13) × Stages email handle
  unfolding register_aged
  aged-Stages email handle AgeBand.under_13 is h = refused s t AccountError.under_minimum_age pair h
  aged-Stages email handle AgeBand.teen_13_15 is h =
      ((λ k. absurd cc), free-Stages email handle AgeBand.teen_13_15 is h)
  aged-Stages email handle AgeBand.teen_16_17 is h =
      ((λ k. absurd cc), free-Stages email handle AgeBand.teen_16_17 is h)
  aged-Stages email handle AgeBand.adult is h =
      ((λ k. absurd cc), free-Stages email handle AgeBand.adult is h)

  checked-IsRegistered :
      (email handle : List ℕ) (o : Option PasswordError)
      → normalise_email p.lower_rune input.email ≡ some email
      → normalise_handle p.lower_rune input.handle ≡ some handle
      → validate_password p.breaches input.password_runes input.password ≡ o
      → register_checked o p i s d email handle input today now ≡ (t, inr pair)
      → IsRegistered p i s t d input today now pair
  unfolding register_checked Stages
  checked-IsRegistered email handle (some e) a b c h =
      refused s t (AccountError.bad_password e) pair h
  checked-IsRegistered email handle none a b c h =
      let (grown, stages) =
        aged-Stages email handle (derive_age_band input.date_of_birth today) refl h in
      let (hash, hashed, new_email, new_handle, started) = stages in
      record {
        email = email;
        handle = handle;
        hash = hash;
        addressed = a;
        named = b;
        strong = c;
        old_enough = grown;
        hashed = hashed;
        new_email = new_email;
        new_handle = new_handle;
        started = started;
      }

  named-IsRegistered :
      (email : List ℕ) (o : Option (List ℕ))
      → normalise_email p.lower_rune input.email ≡ some email
      → normalise_handle p.lower_rune input.handle ≡ o
      → register_named o p i s d email input today now ≡ (t, inr pair)
      → IsRegistered p i s t d input today now pair
  unfolding register_named
  named-IsRegistered email none a b h = refused s t AccountError.invalid_handle pair h
  named-IsRegistered email (some handle) a b h =
      checked-IsRegistered email handle
        (validate_password p.breaches input.password_runes input.password) a b refl h

  addressed-IsRegistered :
      (o : Option (List ℕ))
      → normalise_email p.lower_rune input.email ≡ o
      → register_addressed o p i s d input today now ≡ (t, inr pair)
      → IsRegistered p i s t d input today now pair
  unfolding register_addressed
  addressed-IsRegistered none a h = refused s t AccountError.invalid_email pair h
  addressed-IsRegistered (some email) a h =
      named-IsRegistered email (normalise_handle p.lower_rune input.handle) a refl h

  pub register-IsRegistered :
      register p i s d input today now ≡ (t, inr pair) → IsRegistered p i s t d input today now pair
  unfolding register
  register-IsRegistered h = addressed-IsRegistered (normalise_email p.lower_rune input.email) refl h
