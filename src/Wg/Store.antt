-- ===== src/Wg/Store.antt =====
-- src/db.rs: the interface's row with new obfuscation parameters.
mod Tests
pub mod Laws
use awg_easy_rs.Prelude.{ℕ, List, Option, none, some}
use awg_easy_rs.Prelude.Ints.{ℤ}
use awg_easy_rs.Db.{Interface}
use awg_easy_rs.Wg.Params.{AwgParams}

-- A column that is written only where there is a value.
abbrev pub or_kept {ℓ} : {A : Type ℓ} → Option A → A → A
or_kept (some new) old = new
or_kept none old = old

abbrev pub or_kept_option {ℓ} : {A : Type ℓ} → Option A → Option A → Option A
or_kept_option (some new) old = some new
or_kept_option none old = old

unfoldable pub update_interface_awg_params : AwgParams → Interface → Interface
update_interface_awg_params p iface = record iface {
  j_c = p.jc;
  j_min = p.jmin;
  j_max = p.jmax;
  s1 = p.s1;
  s2 = p.s2;
  s3 = or_kept_option p.s3 iface.s3;
  s4 = or_kept_option p.s4 iface.s4;
  h1 = p.h1;
  h2 = p.h2;
  h3 = p.h3;
  h4 = p.h4;
  i1 = or_kept p.i1 iface.i1;
  i2 = or_kept p.i2 iface.i2;
  i3 = or_kept p.i3 iface.i3;
  i4 = or_kept p.i4 iface.i4;
  i5 = or_kept p.i5 iface.i5;
}
