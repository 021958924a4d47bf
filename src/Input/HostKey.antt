-- ===== src/Input/HostKey.antt =====
-- shared/input/keyboard_mapper.h: the keys of the host, by their numbers.
use espview.Base.{ℕ}

abbrev pub unknown : ℕ
unknown = 0

abbrev pub a_key : ℕ
a_key = 1

abbrev pub b_key : ℕ
b_key = 2

abbrev pub c_key : ℕ
c_key = 3

abbrev pub d_key : ℕ
d_key = 4

abbrev pub e_key : ℕ
e_key = 5

abbrev pub f_key : ℕ
f_key = 6

abbrev pub g_key : ℕ
g_key = 7

abbrev pub h_key : ℕ
h_key = 8

abbrev pub i_key : ℕ
i_key = 9

abbrev pub j_key : ℕ
j_key = 10

abbrev pub k_key : ℕ
k_key = 11

abbrev pub l_key : ℕ
l_key = 12

abbrev pub m_key : ℕ
m_key = 13

abbrev pub n_key : ℕ
n_key = 14

abbrev pub o_key : ℕ
o_key = 15

abbrev pub p_key : ℕ
p_key = 16

abbrev pub q_key : ℕ
q_key = 17

abbrev pub r_key : ℕ
r_key = 18

abbrev pub s_key : ℕ
s_key = 19

abbrev pub t_key : ℕ
t_key = 20

abbrev pub u_key : ℕ
u_key = 21

abbrev pub v_key : ℕ
v_key = 22

abbrev pub w_key : ℕ
w_key = 23

abbrev pub x_key : ℕ
x_key = 24

abbrev pub y_key : ℕ
y_key = 25

abbrev pub z_key : ℕ
z_key = 26

abbrev pub digit_0 : ℕ
digit_0 = 27

abbrev pub digit_1 : ℕ
digit_1 = 28

abbrev pub digit_2 : ℕ
digit_2 = 29

abbrev pub digit_3 : ℕ
digit_3 = 30

abbrev pub digit_4 : ℕ
digit_4 = 31

abbrev pub digit_5 : ℕ
digit_5 = 32

abbrev pub digit_6 : ℕ
digit_6 = 33

abbrev pub digit_7 : ℕ
digit_7 = 34

abbrev pub digit_8 : ℕ
digit_8 = 35

abbrev pub digit_9 : ℕ
digit_9 = 36

abbrev pub f1 : ℕ
f1 = 37

abbrev pub f2 : ℕ
f2 = 38

abbrev pub f3 : ℕ
f3 = 39

abbrev pub f4 : ℕ
f4 = 40

abbrev pub f5 : ℕ
f5 = 41

abbrev pub f6 : ℕ
f6 = 42

abbrev pub f7 : ℕ
f7 = 43

abbrev pub f8 : ℕ
f8 = 44

abbrev pub f9 : ℕ
f9 = 45

abbrev pub f10 : ℕ
f10 = 46

abbrev pub f11 : ℕ
f11 = 47

abbrev pub f12 : ℕ
f12 = 48

abbrev pub escape : ℕ
escape = 49

abbrev pub enter : ℕ
enter = 50

abbrev pub tab : ℕ
tab = 51

abbrev pub backspace : ℕ
backspace = 52

abbrev pub space : ℕ
space = 53

abbrev pub left : ℕ
left = 54

abbrev pub right : ℕ
right = 55

abbrev pub up : ℕ
up = 56

abbrev pub down : ℕ
down = 57

abbrev pub home : ℕ
home = 58

abbrev pub end : ℕ
end = 59

abbrev pub page_up : ℕ
page_up = 60

abbrev pub page_down : ℕ
page_down = 61

abbrev pub insert : ℕ
insert = 62

abbrev pub delete : ℕ
delete = 63

abbrev pub left_ctrl : ℕ
left_ctrl = 64

abbrev pub left_shift : ℕ
left_shift = 65

abbrev pub left_alt : ℕ
left_alt = 66

abbrev pub left_gui : ℕ
left_gui = 67

abbrev pub right_ctrl : ℕ
right_ctrl = 68

abbrev pub right_shift : ℕ
right_shift = 69

abbrev pub right_alt : ℕ
right_alt = 70

abbrev pub right_gui : ℕ
right_gui = 71

abbrev pub caps_lock : ℕ
caps_lock = 72

abbrev pub num_lock : ℕ
num_lock = 73

abbrev pub scroll_lock : ℕ
scroll_lock = 74
