-- ===== src/Logger/Correlation.antt =====
-- The ids that the entries of pkg/logger share with the request.
use go_rest_boilerplate.Base.{
  String, false, Option, some, List, [], ◌∷◌, ◌++◌, ◌≡◌, ◌⊎◌, inl, inr, refl, leb, if_ind, str_eq,
}
use go_rest_boilerplate.Logger.{
  Level, rank, Library, Context, Stack, Field, Fields, Entry, ZapLogger, Logger, to_cores, write,
  append_correlation, merge_fields, flatten, direct, present, trace_field, request_field, log, logf,
  log_with_context, logf_with_context, with_fields, with_context,
}
use go_rest_boilerplate.Logger.Callers.{Link, fields, context, chain}

module _ (lib : Library) where
  abbrev pub Has : Field lib → Fields lib → Type 0
  Has x [] = ⊥
  Has x (y ∷ ys) = (y ≡ x) ⊎ Has x ys

  -- Each entry has the field.
  abbrev pub Carry : Field lib → List (Entry lib) → Type 0
  Carry x [] = Unit
  Carry x (e ∷ es) = Has x e.fields × Carry x es

  Has-append : (x : Field lib) (ys zs : Fields lib) → Has x ys → Has x (ys ++ zs)
  Has-append x [] zs h = absurd h
  Has-append x (y ∷ ys) zs (inl e) = inl e
  Has-append x (y ∷ ys) zs (inr h) = inr (Has-append x ys zs h)

  Has-behind : (x : Field lib) (ys zs : Fields lib) → Has x zs → Has x (ys ++ zs)
  Has-behind x [] zs h = h
  Has-behind x (y ∷ ys) zs h = inr (Has-behind x ys zs h)

  -- What a context is to add to an entry.
  pub data Ids : Context → Field lib → Type 0 where
    request :
        (trace : Option String) (id : String)
        → str_eq id "" ≡ false
        → Ids (record { trace_id = trace; request_id = some id }) ("request_id", lib.string id)
    trace :
        (request : Option String) (id : String)
        → str_eq id "" ≡ false
        → str_eq id "unknown" ≡ false
        → Ids (record { trace_id = some id; request_id = request }) ("traceId", lib.string id)

  append_correlation-Has :
      (ctx : Context) (x : Field lib) (fs : Fields lib)
      → Ids ctx x
      → Has x (append_correlation lib (some ctx) fs)
  unfolding append_correlation
  append_correlation-Has _ _ fs (request t id n) =
      Has-behind ("request_id", lib.string id) (fs ++ trace_field lib (present t))
        (request_field lib id) (rw n (inl refl))
  append_correlation-Has _ _ fs (trace r id n m) =
      let y : Field lib = ("traceId", lib.string id) in
      Has-append y (fs ++ trace_field lib id) (request_field lib (present r))
        (Has-behind y fs (trace_field lib id) (rw (n, m) (inl refl)))

  append_correlation-keeps :
      (ctx : Option Context) (x : Field lib) (fs : Fields lib)
      → Has x fs
      → Has x (append_correlation lib ctx fs)
  unfolding append_correlation
  append_correlation-keeps ctx x fs h = Has-append _ _ _ (Has-append _ fs _ h)

  chain-keeps :
      (x : Field lib) (l : Logger lib) (first : Link lib) (links : List (Link lib))
      → Has x l.fields
      → Has x (chain lib l first links).fields
  unfolding with_fields with_context
  chain-keeps x l (fields fs) [] h = Has-append x l.fields fs h
  chain-keeps x l (context ctx) [] h = append_correlation-keeps ctx x l.fields h
  chain-keeps x l (fields fs) (next ∷ links) h =
      chain-keeps x (with_fields lib l fs) next links (Has-append x l.fields fs h)
  chain-keeps x l (context ctx) (next ∷ links) h =
      chain-keeps x (with_context lib l ctx) next links (append_correlation-keeps ctx x l.fields h)

  chain-Has :
      (l : Logger lib) (ctx : Context) (x : Field lib) (links : List (Link lib))
      → Ids ctx x
      → Has x (chain lib l (context (some ctx)) links).fields
  unfolding with_context
  chain-Has l ctx x [] i = append_correlation-Has ctx x l.fields i
  chain-Has l ctx x (next ∷ links) i =
      chain-keeps x (with_context lib l (some ctx)) next links
        (append_correlation-Has ctx x l.fields i)

  to_cores-Carry :
      (x : Field lib) (level : Level) (e : Entry lib) (cores : List Level)
      → Has x e.fields
      → Carry x (to_cores lib level e cores)
  to_cores-Carry x level e [] h = tt
  to_cores-Carry x level e (c ∷ cs) h =
      let rest = to_cores-Carry x level e cs h in
      if_ind (Carry x) (leb (rank c) (rank level)) (e ∷ to_cores lib level e cs)
        (to_cores lib level e cs) (λ _. (h, rest)) λ _. rest

  write-Carry :
      (x : Field lib) (z : ZapLogger lib) (level : Level) (msg : String) (fs : Fields lib)
      (stack : Stack)
      → Has x fs
      → Carry x (write lib z level msg fs stack).entries
  write-Carry x z level msg fs stack h =
      to_cores-Carry x level _ z.cores (Has-behind x z.attached fs h)

  -- An id of the request, the one that the client sees or the one of the trace, is in each entry
  -- that a method with the request's context writes, on any logger; and in each entry that a method
  -- writes, with another context or none, on a logger to which WithContext gave that context, and
  -- maybe more calls of WithFields and WithContext after it. An empty id and the trace id `unknown` are not ids.
  pub log-Carry :
      (l : Logger lib) (ctx : Context) (x : Field lib)
      → Ids ctx x
      → (links : List (Link lib)) (level : Level) (other : Option Context) (msg : String)
        (more : List (Fields lib)) (args : List lib.Value) (stack : Stack)
      → let c = chain lib l (context (some ctx)) links in
        Carry x (log_with_context lib l level (some ctx) msg more stack).entries
        × Carry x (logf_with_context lib l level (some ctx) msg args stack).entries
        × Carry x (log lib c level msg more stack).entries
        × Carry x (logf lib c level msg args stack).entries
        × Carry x (log_with_context lib c level other msg more stack).entries
        × Carry x (logf_with_context lib c level other msg args stack).entries
  unfolding log logf log_with_context logf_with_context
  log-Carry l ctx x i links level other msg more args stack =
      let c = chain lib l (context (some ctx)) links in
      let given = chain-Has l ctx x links i in
      let merged = Has-append x c.fields (flatten lib more) given in
      let a = "zapLogger.logWithContext" ∷ stack in
      let b = "zapLogger.logfWithContext" ∷ stack in
      (
        write-Carry x l.context_logger level msg _ a
            (append_correlation-Has ctx x (merge_fields lib l more) i),
        write-Carry x l.context_logger level _ _ b (append_correlation-Has ctx x l.fields i),
        write-Carry x (direct lib c) level msg _ ("zapLogger.log" ∷ stack) merged,
        write-Carry x (direct lib c) level _ _ ("zapLogger.logf" ∷ stack) given,
        write-Carry x c.context_logger level msg _ a
            (append_correlation-keeps other x (merge_fields lib c more) merged),
        write-Carry x c.context_logger level _ _ b
            (append_correlation-keeps other x c.fields given),
      )
