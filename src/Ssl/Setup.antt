-- ===== src/Ssl/Setup.antt =====
-- Which options have a context, and which calls it is set up with.
use Prim.Native.Nat.{bit_and}
use tcpclient_server.Prelude.{
  ℕ, ◌≡◌, refl, ◌≢◌, inl, inr, false, List, [], ◌∷◌, ◌++◌, Bytes, ◌==◌, Bool-cases, ap, ◌⊎◌, Option,
  none, some, Option-cases,
}
use tcpclient_server.Errors.{Exception, Outcome, returns, throws, >>=-eq-returns}
use mathlib.Core.Path.{subst}
use tcpclient_server.Ssl.{
  SslMode, off, sslv23, sslv3, invalid, SslOptions, Method, method_sslv23, ContextCall, set_options,
  load_verify_file, use_certificate_chain_file, use_private_key_file, use_tmp_dh_file,
  set_password_callback, Context, method_of, get_method, get_full_pathname, is_empty, verify_calls,
  key_calls, dh_calls, get_ssl_context, OpenSsl, context_calls, run_calls,
}

abbrev pub IsEnabled : SslMode → Type 0
IsEnabled sslv23 = Unit
IsEnabled sslv3 = Unit
IsEnabled _ = ⊥

pub method_of-returns : (m : SslMode) → IsEnabled m → (x : Method) × (method_of m ≡ returns x)
unfolding method_of
method_of-returns sslv23 h = (_, refl)
method_of-returns sslv3 h = (_, refl)
method_of-returns off h = absurd h
method_of-returns (invalid n) h = absurd h

abbrev pub AllAccepted : (ContextCall → Option Exception) → List ContextCall → Type 0
AllAccepted refuses [] = Unit
AllAccepted refuses (c ∷ cs) = (refuses c ≡ none) × AllAccepted refuses cs

-- One of the calls throws this.
abbrev pub IsRefused : (ContextCall → Option Exception) → List ContextCall → Exception → Type 0
IsRefused refuses [] e = ⊥
IsRefused refuses (c ∷ cs) e = (refuses c ≡ some e) ⊎ IsRefused refuses cs e

run_calls-AllAccepted :
    (refuses : ContextCall → Option Exception) (cs : List ContextCall)
    → AllAccepted refuses cs
    → run_calls refuses cs ≡ returns tt
unfolding run_calls
run_calls-AllAccepted refuses [] h = refl
run_calls-AllAccepted refuses (c ∷ cs) (h, hs) =
    rw (run_calls, h) (run_calls-AllAccepted refuses cs hs)

-- The calls are all accepted, or one of them throws.
pub run_calls-cases :
    (refuses : ContextCall → Option Exception) (cs : List ContextCall)
    → AllAccepted refuses cs
      ⊎ ((e : Exception) × IsRefused refuses cs e × (run_calls refuses cs ≡ throws e))
unfolding run_calls
run_calls-cases refuses [] = inl tt
run_calls-cases refuses (c ∷ cs) = elim (Option-cases (refuses c)) [
  | inl none_c ↦ elim (run_calls-cases refuses cs) [
    | inl more ↦ inl (none_c, more)
    | inr (e, why, thrown) ↦ inr (e, inr why, rw (run_calls, none_c) thrown)
  ]
  | inr (e, some_c) ↦ inr (e, inl some_c, rw (run_calls, some_c) refl)
]

-- Every call of the context that the options ask for is accepted: the files can be loaded.
abbrev pub IsLoadable : OpenSsl → SslOptions → Type 0
IsLoadable openssl o = AllAccepted openssl.refuses (context_calls openssl.single_dh_use o)

-- The context has the method that the mode stands for.
pub get_ssl_context-method :
    (openssl : OpenSsl) (o : SslOptions) (m : Method)
    → IsLoadable openssl o
    → method_of o.mode ≡ returns m
    → get_ssl_context openssl o
      ≡ returns (record { method = m; calls = context_calls openssl.single_dh_use o })
unfolding get_ssl_context get_method
get_ssl_context-method openssl o m h e =
    rw (e, run_calls-AllAccepted openssl.refuses (context_calls openssl.single_dh_use o) h) refl

pub get_ssl_context-sslv23 :
    (openssl : OpenSsl) (o : SslOptions)
    → IsLoadable openssl o
    → o.mode ≡ sslv23
    → get_ssl_context openssl o
      ≡ returns (record { method = method_sslv23; calls = context_calls openssl.single_dh_use o })
unfolding method_of
get_ssl_context-sslv23 openssl o l e = get_ssl_context-method openssl o method_sslv23 l (rw e refl)

-- With one of the two SSL modes, a context is made, or one of its calls throws and so does
-- `get_ssl_context`.
pub get_ssl_context-cases :
    (openssl : OpenSsl) (o : SslOptions) (m : Method)
    → method_of o.mode ≡ returns m
    → IsLoadable openssl o
      ⊎ ((e : Exception) × IsRefused openssl.refuses (context_calls openssl.single_dh_use o) e
          × (get_ssl_context openssl o ≡ throws e))
unfolding get_ssl_context get_method
get_ssl_context-cases openssl o m same =
    elim (run_calls-cases openssl.refuses (context_calls openssl.single_dh_use o)) [
      | inl all ↦ inl all
      | inr (e, why, thrown) ↦ inr (e, why, rw (same, thrown) refl)
    ]

-- So it is with the mode of both programs.
pub get_ssl_context-sslv23-cases :
    (openssl : OpenSsl) (o : SslOptions)
    → o.mode ≡ sslv23
    → IsLoadable openssl o
      ⊎ ((e : Exception) × IsRefused openssl.refuses (context_calls openssl.single_dh_use o) e
          × (get_ssl_context openssl o ≡ throws e))
unfolding method_of
get_ssl_context-sslv23-cases openssl o e = get_ssl_context-cases openssl o method_sslv23 (rw e refl)

-- A context is made whenever the mode is one of the two SSL modes and the files can be loaded.
pub get_ssl_context-returns :
    (openssl : OpenSsl) (o : SslOptions)
    → IsLoadable openssl o
    → IsEnabled o.mode
    → (c : Context) × (get_ssl_context openssl o ≡ returns c)
get_ssl_context-returns openssl o l h =
    let (m, e) = method_of-returns o.mode h in (_, get_ssl_context-method openssl o m l e)

module _ (o : SslOptions) where
  -- A call names no file, or one in the certificate directory; the private key is read only by
  -- options that name one, and the verification file by options that name a certificate.
  abbrev pub IsProper : ContextCall → Type 0
  IsProper (set_options n) = n ≡ o.context_options
  IsProper (load_verify_file p) =
      (o.certificate_filename ≢ []) × (p ≡ get_full_pathname o o.certificate_filename)
  IsProper set_password_callback = o.private_key_filename ≢ []
  IsProper (use_certificate_chain_file p) =
      (o.private_key_filename ≢ []) × (p ≡ get_full_pathname o o.certificate_filename)
  IsProper (use_private_key_file p) =
      (o.private_key_filename ≢ []) × (p ≡ get_full_pathname o o.private_key_filename)
  IsProper (use_tmp_dh_file p) = p ≡ get_full_pathname o o.dh_filename

  abbrev pub AllProper : List ContextCall → Type 0
  AllProper [] = Unit
  AllProper (c ∷ cs) = IsProper c × AllProper cs

  AllProper-append : (xs ys : List ContextCall) → AllProper xs → AllProper ys → AllProper (xs ++ ys)
  AllProper-append [] ys hx hy = hy
  AllProper-append (x ∷ xs) ys hx hy = (hx.0, AllProper-append xs ys hx.1 hy)

  is_empty-ne-nil : (s : Bytes) → is_empty s ≡ false → s ≢ []
  is_empty-ne-nil [] e = cc
  is_empty-ne-nil (c ∷ s) e = λ h. cc

  verify_calls-AllProper : AllProper (verify_calls o)
  unfolding verify_calls
  verify_calls-AllProper = elim (Bool-cases (is_empty o.certificate_filename)) [
    | inl e ↦ rw e tt
    | inr e ↦ rw e ((is_empty-ne-nil o.certificate_filename e, refl), tt)
  ]

  key_calls-AllProper : AllProper (key_calls o)
  unfolding key_calls
  key_calls-AllProper = elim (Bool-cases (is_empty o.private_key_filename)) [
    | inl e ↦ rw e tt
    | inr e ↦
        let named = is_empty-ne-nil o.private_key_filename e in
        rw e (named, ((named, refl), ((named, refl), tt)))
  ]

  dh_calls-AllProper : (single_dh_use : ℕ) → AllProper (dh_calls single_dh_use o)
  unfolding dh_calls
  dh_calls-AllProper single_dh_use =
      elim (Bool-cases (bit_and o.context_options single_dh_use == 0)) [
        | inl e ↦ rw e tt
        | inr e ↦ rw e (refl, tt)
      ]

  all_calls-AllProper : (single_dh_use : ℕ) → AllProper (context_calls single_dh_use o)
  unfolding context_calls
  all_calls-AllProper single_dh_use = (
    refl,
    AllProper-append (verify_calls o) (key_calls o ++ dh_calls single_dh_use o)
        verify_calls-AllProper
        (AllProper-append (key_calls o) (dh_calls single_dh_use o) key_calls-AllProper
          (dh_calls-AllProper single_dh_use)),
  )

method_of-IsEnabled : (m : SslMode) (x : Method) → method_of m ≡ returns x → IsEnabled m
unfolding method_of
method_of-IsEnabled off x e = cc
method_of-IsEnabled sslv23 x e = tt
method_of-IsEnabled sslv3 x e = tt
method_of-IsEnabled (invalid n) x e = cc

abbrev calls_of : Outcome Context → List ContextCall
calls_of (returns c) = c.calls
calls_of _ = []

-- Where a context is made, SSL is enabled, and every file that the context is told to read lies in
-- the certificate directory under the name that the options give for its purpose: the verification
-- file only if a certificate is named, the certificate chain, the private key and the password
-- callback only if a private key is named.
pub get_ssl_context_sound :
    (openssl : OpenSsl) (o : SslOptions) (c : Context)
    → get_ssl_context openssl o ≡ returns c
    → IsEnabled o.mode × AllProper o c.calls
unfolding get_ssl_context get_method
get_ssl_context_sound openssl o c e =
    let (m, em, more) = >>=-eq-returns (method_of o.mode) _ e in
    let (done, ran, ec) =
      >>=-eq-returns (run_calls openssl.refuses (context_calls openssl.single_dh_use o)) _ more in
    (
      method_of-IsEnabled o.mode m em,
      subst (AllProper o) (ap calls_of ec) (all_calls-AllProper o openssl.single_dh_use),
    )
