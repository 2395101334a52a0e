-- ===== src/Node/Perform.antt =====
-- What is done for the table of route requests changes neither that table nor the buffers.
use dsr_uu.Base.{◌≡◌, refl, List, [], ◌∷◌, arith}
use dsr_uu.Rreq.{Action}
use dsr_uu.Send.{PktRoom}
use dsr_uu.Node.{Node, Env, perform, perform_all}

module _ (room : PktRoom) (env : Env) where
  pub perform_all-rreq_tbl :
      (s : Node) (actions : List Action) → (perform_all room env s actions).rreq_tbl ≡ s.rreq_tbl
  unfolding perform_all perform
  perform_all-rreq_tbl s [] = refl
  perform_all-rreq_tbl s (a ∷ rest) =
      ground (arith, perform_all-rreq_tbl (perform room env s a) rest)

  pub perform_all-send_buf :
      (s : Node) (actions : List Action) → (perform_all room env s actions).send_buf ≡ s.send_buf
  unfolding perform_all perform
  perform_all-send_buf s [] = refl
  perform_all-send_buf s (a ∷ rest) =
      ground (arith, perform_all-send_buf (perform room env s a) rest)

  pub perform_all-maint_buf :
      (s : Node) (actions : List Action)
      → (perform_all room env s actions).maint.maint_buf ≡ s.maint.maint_buf
  unfolding perform_all perform
  perform_all-maint_buf s [] = refl
  perform_all-maint_buf s (a ∷ rest) =
      ground (arith, perform_all-maint_buf (perform room env s a) rest)

  pub perform_all-faulty :
      (s : Node) (actions : List Action)
      → (perform_all room env s actions).maint.faulty ≡ s.maint.faulty
  unfolding perform_all perform
  perform_all-faulty s [] = refl
  perform_all-faulty s (a ∷ rest) = ground (arith, perform_all-faulty (perform room env s a) rest)

  pub perform_all-grat_rrep :
      (s : Node) (actions : List Action) → (perform_all room env s actions).grat_rrep ≡ s.grat_rrep
  unfolding perform_all perform
  perform_all-grat_rrep s [] = refl
  perform_all-grat_rrep s (a ∷ rest) =
      ground (arith, perform_all-grat_rrep (perform room env s a) rest)
