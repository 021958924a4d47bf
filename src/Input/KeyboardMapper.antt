-- ===== src/Input/KeyboardMapper.antt =====
-- shared/input/keyboard_mapper.h and keyboard_mapper.cpp: the HID usage of a key of the host. The result
-- is `none` where the function returns false.
pub mod Usages
use espview.Base.{ℕ, Bool, true, false, List, [], ◌∷◌, Option, none, some, ◌==◌, if◌then◌else◌}
use espview.Input.HostKey

abbrev mod_ctrl : ℕ
mod_ctrl = 0x0001

abbrev mod_shift : ℕ
mod_shift = 0x0002

abbrev mod_alt : ℕ
mod_alt = 0x0004

abbrev mod_gui : ℕ
mod_gui = 0x0008

pub record KeyMapResult : Type 0 where
  pub hid_usage : ℕ
  pub modifier_bit : ℕ

pub record Entry : Type 0 where
  pub key : ℕ
  pub usage : ℕ
  pub modifier_bit : ℕ

abbrev entry : ℕ → ℕ → ℕ → Entry
entry k u m = record { key = k; usage = u; modifier_bit = m }

unfoldable pub table : List Entry
table =
    entry HostKey.a_key 0x04 0
    ∷ entry HostKey.b_key 0x05 0
    ∷ entry HostKey.c_key 0x06 0
    ∷ entry HostKey.d_key 0x07 0
    ∷ entry HostKey.e_key 0x08 0
    ∷ entry HostKey.f_key 0x09 0
    ∷ entry HostKey.g_key 0x0A 0
    ∷ entry HostKey.h_key 0x0B 0
    ∷ entry HostKey.i_key 0x0C 0
    ∷ entry HostKey.j_key 0x0D 0
    ∷ entry HostKey.k_key 0x0E 0
    ∷ entry HostKey.l_key 0x0F 0
    ∷ entry HostKey.m_key 0x10 0
    ∷ entry HostKey.n_key 0x11 0
    ∷ entry HostKey.o_key 0x12 0
    ∷ entry HostKey.p_key 0x13 0
    ∷ entry HostKey.q_key 0x14 0
    ∷ entry HostKey.r_key 0x15 0
    ∷ entry HostKey.s_key 0x16 0
    ∷ entry HostKey.t_key 0x17 0
    ∷ entry HostKey.u_key 0x18 0
    ∷ entry HostKey.v_key 0x19 0
    ∷ entry HostKey.w_key 0x1A 0
    ∷ entry HostKey.x_key 0x1B 0
    ∷ entry HostKey.y_key 0x1C 0
    ∷ entry HostKey.z_key 0x1D 0
    ∷ entry HostKey.digit_0 0x27 0
    ∷ entry HostKey.digit_1 0x1E 0
    ∷ entry HostKey.digit_2 0x1F 0
    ∷ entry HostKey.digit_3 0x20 0
    ∷ entry HostKey.digit_4 0x21 0
    ∷ entry HostKey.digit_5 0x22 0
    ∷ entry HostKey.digit_6 0x23 0
    ∷ entry HostKey.digit_7 0x24 0
    ∷ entry HostKey.digit_8 0x25 0
    ∷ entry HostKey.digit_9 0x26 0
    ∷ entry HostKey.f1 0x3A 0
    ∷ entry HostKey.f2 0x3B 0
    ∷ entry HostKey.f3 0x3C 0
    ∷ entry HostKey.f4 0x3D 0
    ∷ entry HostKey.f5 0x3E 0
    ∷ entry HostKey.f6 0x3F 0
    ∷ entry HostKey.f7 0x40 0
    ∷ entry HostKey.f8 0x41 0
    ∷ entry HostKey.f9 0x42 0
    ∷ entry HostKey.f10 0x43 0
    ∷ entry HostKey.f11 0x44 0
    ∷ entry HostKey.f12 0x45 0
    ∷ entry HostKey.escape 0x29 0
    ∷ entry HostKey.enter 0x28 0
    ∷ entry HostKey.tab 0x2B 0
    ∷ entry HostKey.backspace 0x2A 0
    ∷ entry HostKey.space 0x2C 0
    ∷ entry HostKey.left 0x50 0
    ∷ entry HostKey.right 0x4F 0
    ∷ entry HostKey.up 0x52 0
    ∷ entry HostKey.down 0x51 0
    ∷ entry HostKey.home 0x4A 0
    ∷ entry HostKey.end 0x4D 0
    ∷ entry HostKey.page_up 0x4B 0
    ∷ entry HostKey.page_down 0x4E 0
    ∷ entry HostKey.insert 0x49 0
    ∷ entry HostKey.delete 0x4C 0
    ∷ entry HostKey.left_ctrl 0xE0 mod_ctrl
    ∷ entry HostKey.right_ctrl 0xE4 mod_ctrl
    ∷ entry HostKey.left_shift 0xE1 mod_shift
    ∷ entry HostKey.right_shift 0xE5 mod_shift
    ∷ entry HostKey.left_alt 0xE2 mod_alt
    ∷ entry HostKey.right_alt 0xE6 mod_alt
    ∷ entry HostKey.left_gui 0xE3 mod_gui
    ∷ entry HostKey.right_gui 0xE7 mod_gui
    ∷ entry HostKey.caps_lock 0x39 0
    ∷ entry HostKey.num_lock 0x53 0
    ∷ entry HostKey.scroll_lock 0x47 0
    ∷ []

unfoldable pub find_entry : ℕ → List Entry → Option KeyMapResult
find_entry key [] = none
find_entry key (e ∷ es) =
    if e.key == key
    then some (record { hid_usage = e.usage; modifier_bit = e.modifier_bit })
    else find_entry key es

unfoldable pub map_key : ℕ → Option KeyMapResult
unfolding find_entry table
map_key key = find_entry key table
