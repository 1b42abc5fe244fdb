-- ===== src/Blueprint/Reloading.antt =====
-- A blueprint that is stored and loaded again has its resources, if every area still has a VIM.
use e_pem.Prelude.{List}
