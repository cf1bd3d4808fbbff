-- ===== src/Life.antt =====
-- The life of a virtual ip as a step relation: what corosync, the other nodes, the administrator and
-- the threads of the module do, in any order.
use freeswitch_mod_cpg.Base.{◌≡◌, ◌∙◌, refl, Bytes}
use freeswitch_mod_cpg.World.{Env, World, Status, done}
use freeswitch_mod_cpg.World.Returns.{Returns, weaken, to_Ensures}
use freeswitch_mod_cpg.Utils.Garp.{Addresses}
use freeswitch_mod_cpg.VirtualIp.Delivery.{Responsive}
use freeswitch_mod_cpg.Input.Safety.{IsSound}
use freeswitch_mod_cpg.Input.History.{Input, feed, IsFromNode, feed-Sound}
use freeswitch_mod_cpg.Callbacks.{HasContext}
use freeswitch_mod_cpg.Callbacks.Safety.{Callback, Receivable, Keeps, call_back, call_back-Keeps}

-- One input of the state machine, or one callback of corosync, that has come to its end.
pub data Step (env : Env) (w w' : World) : Type 0 where
  input : (i : Input) (s : Status) → IsFromNode i → feed env i w ≡ done s w' → Step env w w'
  callback : (cb : Callback) → Receivable cb → call_back env cb w ≡ done tt w' → Step env w w'

pub data Reach (env : Env) (w : World) : World → Type 0 where
  here : Reach env w w
  later : {w1 w2 : World} → Reach env w w1 → Step env w1 w2 → Reach env w w2

module _ (env : Env) (ether ip : Bytes) (responsive : Responsive env)
    (context : HasContext env) where
  Step-Keeps :
      (w w' : World)
      → Addresses env w.vip.config.mac w.vip.config.address ether ip
      → IsSound w
      → Step env w w'
      → Keeps w (tt {0}) w'
  Step-Keeps w w' a s (input i status n run) =
      to_Ensures _ _ (rw run at (feed-Sound env w ether ip i responsive a s n))
  Step-Keeps w w' a s (callback cb h run) =
      to_Ensures _ _ (rw run at (call_back-Keeps env ether ip responsive cb w h context a s))

  Reach-Keeps :
      (w : World) {w' : World}
      → Addresses env w.vip.config.mac w.vip.config.address ether ip
      → IsSound w
      → Reach env w w'
      → Keeps w (tt {0}) w'
  Reach-Keeps w a s here = (s, refl)
  Reach-Keeps w a s (later {w1} {w2} r st) =
      let k = Reach-Keeps w a s r in let m = Step-Keeps w1 w2 (rw k.1 a) k.0 st in (m.0, m.1 ∙ k.1)

  -- Of every world that is reached from one that satisfies the invariant, by any inputs of the state
  -- machine and any callbacks of corosync in any order: the invariant holds, the configuration is the
  -- one at the start, and the virtual ip is not stuck, since any input and any callback that may come
  -- next returns with all that kept. That is so where libc reads the configured addresses and
  -- corosync settles every message and finds the context in every callback, for inputs that are not
  -- from node 0, and for callbacks with a message as the module sends it, its fields fitting and not
  -- from node 0, or with a change of the group.
  pub Reach-IsSound :
      (w w' : World) (i : Input) (cb : Callback)
      → Addresses env w.vip.config.mac w.vip.config.address ether ip
      → IsSound w
      → Reach env w w'
      → IsFromNode i
      → Receivable cb
      → Keeps w (tt {0}) w'
        × Returns (Keeps w) (feed env i w')
        × Returns (Keeps w) (call_back env cb w')
  Reach-IsSound w w' i cb a s r n h =
      let k = Reach-Keeps w a s r in
      let a' : Addresses env w'.vip.config.mac w'.vip.config.address ether ip = rw k.1 a in
      (
        k,
        weaken (feed-Sound env w' ether ip i responsive a' k.0 n) (λ u w2 m. (m.0, m.1 ∙ k.1)),
        weaken (call_back-Keeps env ether ip responsive cb w' h context a' k.0)
            (λ u w2 m. (m.0, m.1 ∙ k.1)),
      )
