-- ===== src/Server/Actions/Interleaving.antt =====
-- The steps of cmd/fwknopd/actions.go: a message is dispatched, and a CloseRule goes on. A timer that
-- fires starts a goroutine, which runs the close command, and then takes the lock to delete the
-- entry. Messages and other timers may come in between.
use mathlib.Core.List.{Memᴰ}
use fwknop_go.Base.{ℕ, ◌≤◌, ◌≡◌, ◌⊎◌, ℤ, pos, negsuc, List, ◌∷◌, Bytes}
use fwknop_go.Spa.Message.{Message}
use fwknop_go.Server.Access.{AccessStanza, Net}
use fwknop_go.Server.Request.{TemplateContext, rule_key, build_template_context}
use fwknop_go.Server.Actions.{
  Templates, new_manager, Host, Timer, Manager, dispatch_action, begin_close, run_close, forget,
}

-- A timer does not fire before it is due.
abbrev pub IsDue : ℕ → ℤ → Type 0
IsDue now (pos t) = t ≤ now
IsDue now (negsuc t) = Unit

-- One element of a list is taken out, wherever it stands.
pub data Takes {ℓ} {A : Type ℓ} (x : A) : List A → List A → Type ℓ where
  takes_first : {xs : List A} → Takes x (x ∷ xs) xs
  takes_later : {y : A} {xs ys : List A} → Takes x xs ys → Takes x (y ∷ xs) (y ∷ ys)

-- A CloseRule of the key is on its way.
abbrev pub IsClosing : Bytes → List TemplateContext → List TemplateContext → Type 0
IsClosing k fired closed =
    (ctx : TemplateContext) × (Memᴰ ctx fired ⊎ Memᴰ ctx closed) × (rule_key ctx ≡ k)

module _ {W : Type 0} (host : Host W) (cfg : Templates) (net : Net) where
  -- The steps of CloseRule, at a time.
  pub data CloseStep (now : ℕ) : Manager W → Manager W → Type 0 where
    begins :
        {am : Manager W} (t : Timer)
        → Memᴰ t am.timers
        → IsDue now t.due
        → CloseStep now am (begin_close host cfg t am)
    runs :
        {am : Manager W} (ctx : TemplateContext) (fired : List TemplateContext)
        → Takes ctx am.fired fired
        → CloseStep now am (run_close host cfg ctx fired am)
    forgets :
        {am : Manager W} (ctx : TemplateContext) (closed : List TemplateContext)
        → Takes ctx am.closed closed
        → CloseStep now am (forget host cfg ctx closed am)

  pub data Step : Manager W → Manager W → Type 0 where
    dispatches :
        {am : Manager W} (now : ℕ) (m : Message) (s : AccessStanza) (src : Bytes)
        → Step am (dispatch_action host cfg net now m s src am)
    closes : {now : ℕ} {am am' : Manager W} → CloseStep now am am' → Step am am'

  -- Any number of steps from a new manager.
  pub data Reachable : Manager W → Type 0 where
    starts : (w : W) → Reachable (new_manager w)
    steps : {am am' : Manager W} → Reachable am → Step am am' → Reachable am'

  -- Steps in which no message comes while a CloseRule of the key that it asks for is on its way.
  pub data Orderly : Manager W → Type 0 where
    fresh : (w : W) → Orderly (new_manager w)
    asks :
        {am : Manager W} (now : ℕ) (m : Message) (s : AccessStanza) (src : Bytes)
        → Orderly am
        → ¬ IsClosing (rule_key (build_template_context net m src s)) am.fired am.closed
        → Orderly (dispatch_action host cfg net now m s src am)
    goes : {now : ℕ} {am am' : Manager W} → Orderly am → CloseStep now am am' → Orderly am'

  pub Orderly-Reachable : (am : Manager W) → Orderly am → Reachable am
  Orderly-Reachable am (fresh w) = starts w
  Orderly-Reachable am (asks {am = before} now m s src o free) =
      steps (Orderly-Reachable before o) (dispatches now m s src)
  Orderly-Reachable am (goes {am = before} o s) = steps (Orderly-Reachable before o) (closes s)
