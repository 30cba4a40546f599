-- ===== src/Tests/Names.antt =====
-- A VM's name on a host whose files already name another VM.
use lustre_test_vms.Base.{String, ◌≡◌, refl, true, false, none, some, [], ◌∷◌, string_eq}
use lustre_test_vms.Net.Names.{
  entry, text, tabbed, empty, other, Files, Env, block, without_blocks, strip_blocks,
  register_ssh_config, lines_of, written_back, register_ssh_name, unregister_ssh_name,
}
use lustre_test_vms.Net.Names.Laws.{unregister-register}

abbrev env : Env
env = record { shared = false; publishes = false; unpublishes = false; may_edit = true }

abbrev name : String
name = "co1"

abbrev address_of : String
address_of = "192.168.100.7"

abbrev before : Files
before = record {
  hosts = text "127.0.0.1 localhost" ∷ entry "192.168.100.9" "co1-single" ∷ [];
  published = λ k. none;
  ssh =
      some (other "Host *" ∷ tabbed "Compression yes" ∷ empty ∷ block "co1-single" "192.168.100.9");
}

-- The block and the empty line before it are gone again.
there_and_back :
    (unregister_ssh_name env name (register_ssh_name env name address_of before)).ssh ≡ before.ssh
unfolding unregister_ssh_name register_ssh_name register_ssh_config without_blocks strip_blocks
    string_eq
there_and_back = refl

unregister-register_example :
    ((unregister_ssh_name env name (register_ssh_name env name address_of before)).hosts
      ≡ (unregister_ssh_name env name before).hosts)
    × ((unregister_ssh_name env name (register_ssh_name env name address_of before)).ssh
        ≡ some (written_back (without_blocks name (lines_of before.ssh))))
unregister-register_example = unregister-register env name address_of before refl
