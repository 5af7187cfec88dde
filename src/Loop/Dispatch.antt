-- ===== src/Loop/Dispatch.antt =====
-- A round of `wmWorkerLoop_loop` in src/worker/loop.c: the handlers of the sockets that epoll reports.
--
-- What a handler does is a parameter, with what it makes of the memory: a socket may be freed, and its
-- `loop_type` is read before each handler. `none` is such a read of a freed socket.
use warrior_man.Prelude.{
  ℕ, ◌≡◌, refl, ◌∙◌, arith, Bool, true, false, Option, none, some, List, [], ◌∷◌, All, Option-cases,
  inl, inr,
}
use warrior_man.Loop.{Handlers, Kind, in_event, out_event, Flags, get_handler}

-- An item of the array that `epoll_wait` fills.
pub record Ready : Type 0 where
  pub socket : ℕ
  pub flags : Flags

module _ {K : Type 0} (handle : K → ℕ → ℕ → Kind → K) (freed : K → ℕ → Bool) (loop_type : K → ℕ → ℕ)
    (h : Handlers) where
  pub call_handler : K → ℕ → Kind → Option K
  call_handler k s kind = elim (freed k s) [
    | true ↦ none
    | false ↦ elim (get_handler h kind (loop_type k s)) [
      | none ↦ some k
      | some fn ↦ some (handle k fn s kind)
    ]
  ]

  pub call_if : Bool → K → ℕ → Kind → Option K
  call_if false k s kind = some k
  call_if true k s kind = call_handler k s kind

  -- The reading handler of a socket, and then the writing one.
  pub dispatch_one : K → Ready → Option K
  dispatch_one k r = elim (call_if r.flags.epollin k r.socket in_event) [
    | none ↦ none
    | some k' ↦ call_if r.flags.epollout k' r.socket out_event
  ]

  pub dispatch : K → List Ready → Option K
  dispatch k [] = some k
  dispatch k (r ∷ rs) = elim (dispatch_one k r) [ none ↦ none | some k' ↦ dispatch k' rs ]

  -- The socket is not freed.
  abbrev pub IsAlive : K → ℕ → Type 0
  IsAlive k s = freed k s ≡ false

  -- Handlers that free no socket.
  abbrev pub FreesNone : Type 0
  FreesNone = (k : K) (fn s x : ℕ) (kind : Kind) → freed (handle k fn s kind) x ≡ freed k x

  call_if-alive :
      FreesNone
      → (b : Bool) (k : K) (s : ℕ) (kind : Kind) → IsAlive k s
      → (k' : K) × ((call_if b k s kind ≡ some k') × ((x : ℕ) → freed k' x ≡ freed k x))
  unfolding call_if call_handler
  call_if-alive f false k s kind a = (k, (refl, λ x. refl))
  call_if-alive f true k s kind a = elim (Option-cases (get_handler h kind (loop_type k s))) [
    | inl e ↦ (k, (rw (call_if, call_handler, a, e) refl, λ x. refl))
    | inr (fn, e) ↦
        (handle k fn s kind, (rw (call_if, call_handler, a, e) refl, λ x. f k fn s x kind))
  ]

  -- A round in which no handler frees a socket, over sockets that are alive: all handlers are called, and no
  -- freed socket is read.
  pub dispatch_lem :
      FreesNone
      → (k : K) (rs : List Ready) → All (λ r. IsAlive k r.socket) rs
      → (k' : K) × (dispatch k rs ≡ some k')
  unfolding dispatch dispatch_one
  dispatch_lem f k [] a = (k, refl)
  dispatch_lem f k (r ∷ rs) a =
      let (k₁, (e, g)) = call_if-alive f r.flags.epollin k r.socket in_event a.0 in
      let (k₂, (e', g')) =
        call_if-alive f r.flags.epollout k₁ r.socket out_event (g r.socket ∙ a.0) in
      let still = alive_after k k₂ (λ x. g' x ∙ g x) rs a.1 in
      let (k', ih) = dispatch_lem f k₂ rs still in (k', rw (dispatch, dispatch_one, e, e') ih)
    where
      alive_after :
          (k k₂ : K)
          → ((x : ℕ) → freed k₂ x ≡ freed k x)
          → (rs : List Ready) → All (λ r. IsAlive k r.socket) rs
          → All (λ r. IsAlive k₂ r.socket) rs
      alive_after k k₂ g [] a = tt
      alive_after k k₂ g (r ∷ rs) a = (g r.socket ∙ a.0, alive_after k k₂ g rs a.1)

  -- A socket reported for both, whose reading handler frees it: it is read after that.
  pub read_after_free :
      (k : K) (fn : ℕ) (r : Ready) (rs : List Ready)
      → r.flags.epollin ≡ true
      → r.flags.epollout ≡ true
      → IsAlive k r.socket
      → get_handler h in_event (loop_type k r.socket) ≡ some fn
      → freed (handle k fn r.socket in_event) r.socket ≡ true
      → dispatch k (r ∷ rs) ≡ none
  unfolding dispatch dispatch_one call_if call_handler
  read_after_free k fn r rs i o a g f = ground (arith, i, o, a, g, f)
