-- ===== src/Doctor/Fixes.antt =====
-- ai-firewall/src/doctor.rs, `action`: which fix an id stands for. The commands that they run are not
-- modelled.
use ai_firewall.Prelude.{◌≡◌, refl, Bool, true, false, Option, none, some, is_some, if◌then◌else◌}
use ai_firewall.Text.{Text, codes, text_eq}
use ai_firewall.Doctor.{Fix, find_fix, summary_of, fix_summary}

pub data Action : Type 0 where
  start_firewall : Action
  disable_ufw : Action
  disable_firewalld : Action
  enable_forwarding : Action
  allow_vm_forwarding : Action
  restart_libvirt_network : Action
  restart_resolved : Action
  unban_protected : Action

unfoldable pub action : Text → Option Action
action id =
    if text_eq (codes "start-firewall") id
    then some start_firewall
    else if text_eq (codes "disable-ufw") id
    then some disable_ufw
    else if text_eq (codes "disable-firewalld") id
    then some disable_firewalld
    else if text_eq (codes "enable-forwarding") id
    then some enable_forwarding
    else if text_eq (codes "allow-vm-forwarding") id
    then some allow_vm_forwarding
    else if text_eq (codes "restart-libvirt-network") id
    then some restart_libvirt_network
    else if text_eq (codes "restart-resolved") id
    then some restart_resolved
    else if text_eq (codes "unban-protected") id
    then some unban_protected
    else none

-- The two searches run through the same tests.
both_chains :
    (a b c d e f g h : Bool) (f0 f1 f2 f3 f4 f5 f6 f7 : Fix)
    → is_some (
        if a
        then some start_firewall
        else if b
        then some disable_ufw
        else if c
        then some disable_firewalld
        else if d
        then some enable_forwarding
        else if e
        then some allow_vm_forwarding
        else if f
        then some restart_libvirt_network
        else if g
        then some restart_resolved
        else if h
        then some unban_protected
        else none)
      ≡ is_some (
          summary_of (
            if a
            then some f0
            else if b
            then some f1
            else if c
            then some f2
            else if d
            then some f3
            else if e
            then some f4
            else if f
            then some f5
            else if g
            then some f6
            else if h
            then some f7
            else none))
both_chains true b c d e f g h f0 f1 f2 f3 f4 f5 f6 f7 = refl
both_chains false true c d e f g h f0 f1 f2 f3 f4 f5 f6 f7 = refl
both_chains false false true d e f g h f0 f1 f2 f3 f4 f5 f6 f7 = refl
both_chains false false false true e f g h f0 f1 f2 f3 f4 f5 f6 f7 = refl
both_chains false false false false true f g h f0 f1 f2 f3 f4 f5 f6 f7 = refl
both_chains false false false false false true g h f0 f1 f2 f3 f4 f5 f6 f7 = refl
both_chains false false false false false false true h f0 f1 f2 f3 f4 f5 f6 f7 = refl
both_chains false false false false false false false true f0 f1 f2 f3 f4 f5 f6 f7 = refl
both_chains false false false false false false false false f0 f1 f2 f3 f4 f5 f6 f7 = refl

-- An id has an action exactly when it is on the list of fixes.
pub action-fix_summary : (id : Text) → is_some (action id) ≡ is_some (fix_summary id)
unfolding action fix_summary find_fix
action-fix_summary id =
    both_chains (text_eq (codes "start-firewall") id) (text_eq (codes "disable-ufw") id)
      (text_eq (codes "disable-firewalld") id) (text_eq (codes "enable-forwarding") id)
      (text_eq (codes "allow-vm-forwarding") id) (text_eq (codes "restart-libvirt-network") id)
      (text_eq (codes "restart-resolved") id) (text_eq (codes "unban-protected") id) _ _ _ _ _ _ _ _
