-- ===== src/G2gin/Engine/Served.antt =====
-- What a request for `/jsonrpc` meets.
use gof.Base.{◌≡◌, ◌⊎◌, false, Text}
use gof.J2rpc.Server.{Server}
use gof.G2util.Graceful.{Graceful}
use gof.G2gin.Engine.{
  Context, Handler, Gin, IsGin, Settings, copy_request_body, mid_add_request_id, body_fails,
}

module _ {G : Type 0} (x : Gin G) (law : IsGin x) where
  module _ (st : Settings) (cors : Handler) (id : Text) (c : Context)
      (open_request : c.aborted ≡ false) (whole : (st.debug ≡ false) ⊎ (body_fails c.body ≡ false))
      (allowed : (cors (copy_request_body st.debug c)).aborted ≡ false) where
    -- the context behind the middlewares
    abbrev pub behind : Context
    behind = mid_add_request_id st.debug id (cors (copy_request_body st.debug c))
